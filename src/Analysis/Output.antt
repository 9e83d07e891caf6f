-- ===== src/Analysis/Output.antt =====
-- src/trader/analysis/output_schema.py: the shape of the LLM's answer, and its validation. Reading
-- JSON and the types of its fields are pydantic's, parameters here, as are `strip` and `splitlines`.
use Prim.Native.String.{count as characters}
use text.Mathlib.Text.{starts_with}
use kyo_trading_tool.Prelude.{
  leb, Bool, true, false, not, ◌&&◌, Option, none, some, List, [], ◌∷◌, ◌++◌, any, contains, String,
  str_eq, if◌then◌else◌,
}
use kyo_trading_tool.Domain.Result.{Result, ok, err, ◌>>=◌}
use kyo_trading_tool.Domain.Decimal.{Decimal, of_ℕ, leb_dec}
use kyo_trading_tool.Domain.Models.{Note}

-- `AnalysisError.message`
abbrev pub AnalysisError : Type 0
AnalysisError = Note

-- a proposal whose fields have the declared types, before their constraints
pub record RawProposal : Type 0 where
  pub ticker : String
  pub action : String
  pub confidence : Decimal
  pub rationale : String
  pub evidence_mention_ids : List String

-- `Literal["buy", "hold", "skip"]`
pub data ProposedAction : Type 0 where
  buy hold skip : ProposedAction

pub record LlmProposal : Type 0 where
  pub ticker : String
  pub action : ProposedAction
  pub confidence : Decimal
  pub rationale : String
  pub evidence_mention_ids : List String

-- what JSON holds: proposals, or something else, with the names of the fields at fault
pub data Payload : Type 0 where
  untyped : List String → Payload
  typed : List RawProposal → Payload

-- the functions of Python and pydantic
pub record Reader : Type 0 where
  pub strip : String → String
  pub splitlines : String → List String
  pub join_lines : List String → String
  pub loads : String → Option Payload

-- `lines[-1]`, and `lines[1:-1]` after the first line
abbrev pub last_of : String → List String → String
last_of l [] = l
last_of l (k ∷ ks) = last_of k ks

abbrev pub but_last : List String → List String
but_last [] = []
but_last (l ∷ []) = []
but_last (l ∷ k ∷ ks) = l ∷ but_last (k ∷ ks)

module _ (reader : Reader) where
  -- the lines of a text that starts with a fence
  unfoldable pub unfence : String → List String → String
  unfence stripped [] = stripped
  unfence stripped (l ∷ []) = stripped
  unfence stripped (l ∷ k ∷ ks) =
      if str_eq (reader.strip (last_of k ks)) "```"
      then reader.strip (reader.join_lines (but_last (k ∷ ks)))
      else stripped

  -- `_strip_code_fence`
  unfoldable pub strip_code_fence : String → String
  strip_code_fence text =
      let stripped = reader.strip text in
      if starts_with stripped "```" then unfence stripped (reader.splitlines stripped) else stripped

abbrev pub action_of : String → Option ProposedAction
action_of a =
    if str_eq a "buy"
    then some ProposedAction.buy
    else if str_eq a "hold"
    then some ProposedAction.hold
    else if str_eq a "skip"
    then some ProposedAction.skip
    else none

-- `Field(ge=0, le=1)` and `Field(min_length=1, max_length=2000)`
abbrev pub confidence_valid : Decimal → Bool
confidence_valid d = leb_dec (of_ℕ 0) d && leb_dec d (of_ℕ 1)

abbrev pub rationale_valid : String → Bool
rationale_valid r = leb 1 (characters r) && leb (characters r) 2000

abbrev pub with_action : RawProposal → Option ProposedAction → Option LlmProposal
with_action r none = none
with_action r (some action) =
    if confidence_valid r.confidence && rationale_valid r.rationale
    then some (record {
      ticker = r.ticker;
      action = action;
      confidence = r.confidence;
      rationale = r.rationale;
      evidence_mention_ids = r.evidence_mention_ids;
    })
    else none

-- the constraints of `LlmProposal`
unfoldable pub validate_proposal : RawProposal → Option LlmProposal
validate_proposal r = with_action r (action_of r.action)

abbrev pub is_none : {A : Type 0} → Option A → Bool
is_none none = true
is_none (some a) = false

-- the names of the fields at fault, sorted and with no name twice
unfoldable pub fields_at_fault : List RawProposal → List String
fields_at_fault rs =
    (if any (λ (r : RawProposal). is_none (action_of r.action)) rs then "action" ∷ [] else [])
    ++ ((if any (λ (r : RawProposal). not (confidence_valid r.confidence)) rs
          then "confidence" ∷ []
          else [])
        ++ (if any (λ (r : RawProposal). not (rationale_valid r.rationale)) rs
            then "rationale" ∷ []
            else []))

abbrev pub cons_valid : Option LlmProposal → Option (List LlmProposal) → Option (List LlmProposal)
cons_valid none ps = none
cons_valid (some p) none = none
cons_valid (some p) (some ps) = some (p ∷ ps)

unfoldable pub validate_proposals : List RawProposal → Option (List LlmProposal)
validate_proposals [] = some []
validate_proposals (r ∷ rs) = cons_valid (validate_proposal r) (validate_proposals rs)

abbrev pub or_faults :
    List RawProposal → Option (List LlmProposal) → Result AnalysisError (List LlmProposal)
or_faults rs none = err (Note.invalid_fields (fields_at_fault rs))
or_faults rs (some ps) = ok ps

-- `LlmResponse.model_validate(payload)`, with `_validation_summary` of its error
unfoldable pub model_validate : Option Payload → Result AnalysisError (List LlmProposal)
model_validate none = err (Note.text "llm response is not valid JSON")
model_validate (some (untyped fields)) = err (Note.invalid_fields fields)
model_validate (some (typed rs)) = or_faults rs (validate_proposals rs)

-- the loop over the proposals
unfoldable pub check_candidates :
    List String → List LlmProposal → List LlmProposal → Result AnalysisError (List LlmProposal)
check_candidates candidates all [] = ok all
check_candidates candidates all (p ∷ ps) =
    let rest = check_candidates candidates all ps in
    if contains p.ticker candidates
    then rest
    else err (Note.text "llm response proposes a ticker outside the candidate list")

unfoldable pub parse_llm_response :
    Reader → String → List String → Result AnalysisError (List LlmProposal)
parse_llm_response reader text candidates =
    model_validate (reader.loads (strip_code_fence reader text)) >>= λ ps.
    check_candidates candidates ps ps
