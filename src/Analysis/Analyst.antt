-- ===== src/Analysis/Analyst.antt =====
-- src/trader/analysis/analyst.py: one call of the LLM for all candidates. The client is an
-- interface over the world outside, with what a successful call returns (llm_client.py).
pub mod Adopted
use kyo_trading_tool.Prelude.{Option, none, some, List, [], ◌∷◌, String}
use kyo_trading_tool.Domain.Result.{Result, ok, err, raised}
use kyo_trading_tool.Domain.Models.{Note}
use kyo_trading_tool.Analysis.Prompt.{Prompt}
use kyo_trading_tool.Analysis.Output.{AnalysisError, LlmProposal, Reader, parse_llm_response}

-- `LlmError.message`
abbrev pub LlmError : Type 0
LlmError = String

pub record LlmRaw : Type 0 where
  pub text : String
  pub model : String
  pub prompt_sha256 : String
  pub response_sha256 : String

pub record LlmClient (S : Type 0) : Type 0 where
  pub model : String
  pub complete : Prompt → S → Result LlmError LlmRaw × S

pub record AnalysisResult : Type 0 where
  pub proposals : List LlmProposal
  pub llm_model : String
  pub prompt_sha256 : String
  pub response_sha256 : String
  pub skipped_reason : Option Note

-- nothing is proposed
abbrev pub skipped : String → String → String → Note → AnalysisResult
skipped model prompt_sha256 response_sha256 reason = record {
  proposals = [];
  llm_model = model;
  prompt_sha256 = prompt_sha256;
  response_sha256 = response_sha256;
  skipped_reason = some reason;
}

-- the raw answer, parsed
unfoldable pub of_parsed :
    {E : Type 0} → LlmRaw → Result AnalysisError (List LlmProposal) → Result E AnalysisResult
of_parsed raw (ok proposals) = ok (record {
  proposals = proposals;
  llm_model = raw.model;
  prompt_sha256 = raw.prompt_sha256;
  response_sha256 = raw.response_sha256;
  skipped_reason = none;
})
of_parsed raw (err e) =
    ok (skipped raw.model raw.prompt_sha256 raw.response_sha256 (Note.invalid_llm_output e))
of_parsed raw (raised x) = raised x

-- the outcome of the call
unfoldable pub of_call :
    {S E : Type 0}
    → Reader
    → String
    → List String
    → Result LlmError LlmRaw × S
    → Result E AnalysisResult × S
of_call reader model candidates (ok raw, s) =
    (of_parsed raw (parse_llm_response reader raw.text candidates), s)
of_call reader model candidates (err e, s) = (ok (skipped model "" "" (Note.llm_call_failed e)), s)
of_call reader model candidates (raised x, s) = (raised x, s)

-- with no candidates the LLM is not called
unfoldable pub propose :
    {S E : Type 0} → Reader → LlmClient S → Prompt → List String → S → Result E AnalysisResult × S
propose reader client prompt [] s = (ok (skipped client.model "" "" (Note.text "no candidates")), s)
propose reader client prompt (t ∷ ts) s =
    of_call reader client.model (t ∷ ts) (client.complete prompt s)
