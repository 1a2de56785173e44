-- ===== src/Models/Usage.antt =====
-- TokenUsage of models/model.py. The validator makes the total the sum of the two counts.
use base_agent.Base.{ℕ, ◌+◌}

pub record TokenUsage : Type 0 where
  pub input_tokens : ℕ
  pub output_tokens : ℕ
  pub total_tokens : ℕ

-- What the constructor builds from the two counts.
abbrev pub token_usage : ℕ → ℕ → TokenUsage
token_usage input output = record {
  input_tokens = input;
  output_tokens = output;
  total_tokens = input + output;
}

-- `TokenUsage()`.
abbrev pub no_usage : TokenUsage
no_usage = token_usage 0 0

-- `__add__`.
abbrev pub add_usage : TokenUsage → TokenUsage → TokenUsage
add_usage a b = token_usage (a.input_tokens + b.input_tokens) (a.output_tokens + b.output_tokens)
