-- ===== src/Context/Expansion.antt =====
-- context/policy.py
pub mod Growth
use pyfix_agent.Base.{
  ℕ, ◌+◌, ◌*◌, min, String, Bool, ◌&&◌, ◌||◌, Option, none, some, leb, ◌==◌, string_eq,
  if◌then◌else◌,
}
use pyfix_agent.Base.Int.{ℤ, pos, at_least}

pub record ContextPlan : Type 0 where
  pub strategy : String
  pub line_window : ℤ
  pub max_files : ℤ
  pub level : ℕ

pub record ContextExpansionPolicy : Type 0 where
  pub max_level : ℕ
  pub level : ℕ
  pub last_reason : Option String

-- `__init__`
unfoldable pub initial : ℤ → ContextExpansionPolicy
initial max_level = record { max_level = at_least 0 max_level; level = 0; last_reason = none }

unfoldable pub expand : ContextExpansionPolicy → String → ContextExpansionPolicy
expand p reason = record p { level = min p.max_level (p.level + 1); last_reason = some reason }

unfoldable pub plan : ContextExpansionPolicy → String → ℤ → ℤ → Bool → ContextPlan
plan p strategy line_window max_files allow_full =
    if strategy == "full" || (leb 2 p.level && allow_full)
    then record {
      strategy = "full";
      line_window = line_window;
      max_files = max_files;
      level = p.level;
    }
    else (let multiplier : ℕ = if leb 1 p.level then 2 else 1 in
        record {
          strategy = "traceback";
          line_window = pos (at_least 0 line_window * multiplier);
          max_files = pos (at_least 1 max_files * multiplier);
          level = p.level;
        })
