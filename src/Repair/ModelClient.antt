-- ===== src/Repair/ModelClient.antt =====
-- repair/model_client.py: how a call of the model ends.
use pyfix_agent.Base.{String}
use pyfix_agent.Core.Contracts.{Metadata}

-- What `ModelClient.generate` does: it returns the output, or raises `ModelGenerationError`, into
-- which it turns every exception of the model. Each comes with the call's metadata.
pub data Generation : Type 0 where
  generated : String → Metadata → Generation
  generation_error : String → Metadata → Generation
