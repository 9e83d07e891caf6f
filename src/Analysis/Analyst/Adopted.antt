-- ===== src/Analysis/Analyst/Adopted.antt =====
-- What of an answer is adopted: proposals on candidates, or nothing.
use kyo_trading_tool.Prelude.{
  ◌≡◌, refl, subst, arith, Bool-cases, inl, inr, true, List, [], ◌∷◌, String, contains,
}
use kyo_trading_tool.Domain.Result.{Result, ok, err, raised, ◌>>=◌}
use kyo_trading_tool.Analysis.Prompt.{Prompt}
use kyo_trading_tool.Analysis.Output.{
  AnalysisError, LlmProposal, Reader, model_validate, check_candidates, strip_code_fence,
  parse_llm_response,
}
use kyo_trading_tool.Analysis.Analyst.{
  LlmError, LlmRaw, LlmClient, AnalysisResult, of_parsed, of_call, propose,
}

-- every proposal is on one of the tickers
abbrev pub AllOn : List String → List LlmProposal → Type 0
AllOn candidates [] = Unit {0}
AllOn candidates (p ∷ ps) = (contains p.ticker candidates ≡ true) × AllOn candidates ps

abbrev pub AllOnIf : {E : Type 0} → List String → Result E (List LlmProposal) → Type 0
AllOnIf candidates (ok ps) = AllOn candidates ps
AllOnIf candidates (err _) = Unit {0}
AllOnIf candidates (raised _) = Unit {0}

check_candidates-AllOn :
    (candidates : List String) (all ps qs : List LlmProposal)
    → check_candidates candidates all ps ≡ ok qs
    → (all ≡ qs) × AllOn candidates ps
unfolding check_candidates
check_candidates-AllOn candidates all [] qs e = (cc e, tt)
check_candidates-AllOn candidates all (p ∷ ps) qs e =
    elim (Bool-cases (contains p.ticker candidates)) [
      | inl h ↦
          let (q, r) = check_candidates-AllOn candidates all ps qs (ground (arith, h, e)) in
          (q, (h, r))
      | inr h ↦ absurd (ground (arith, h, e))
    ]

-- the answer is adopted only where every proposal is on a candidate
parse-AllOnIf :
    (reader : Reader) (text : String) (candidates : List String)
    → AllOnIf candidates (parse_llm_response reader text candidates)
unfolding parse_llm_response
parse-AllOnIf reader text candidates =
    of_validated (model_validate (reader.loads (strip_code_fence reader text)))
  where
    of_checked :
        (ps : List LlmProposal) (x : Result AnalysisError (List LlmProposal))
        → check_candidates candidates ps ps ≡ x
        → AllOnIf candidates x
    of_checked ps (ok qs) e =
        let (q, r) = check_candidates-AllOn candidates ps ps qs e in subst (AllOn candidates) q r
    of_checked ps (err _) e = tt
    of_checked ps (raised _) e = tt

    of_validated :
        (x : Result AnalysisError (List LlmProposal))
        → AllOnIf candidates (x >>= λ ps. check_candidates candidates ps ps)
    of_validated (ok ps) = of_checked ps (check_candidates candidates ps ps) refl
    of_validated (err _) = tt
    of_validated (raised _) = tt

-- what a call of `propose` adopts: proposals on the candidates; with a reason to skip, none
abbrev pub Adopted : {S E : Type 0} → List String → Result E AnalysisResult × S → Type 0
Adopted candidates (ok a, _) = AllOn candidates a.proposals
Adopted candidates (err _, _) = Unit {0}
Adopted candidates (raised _, _) = Unit {0}

of_parsed-Adopted :
    {S : Type 0} (E : Type 0) (candidates : List String) (raw : LlmRaw) (s : S)
    (x : Result AnalysisError (List LlmProposal))
    → AllOnIf candidates x
    → Adopted {S = S} {E = E} candidates (of_parsed raw x, s)
unfolding of_parsed
of_parsed-Adopted E candidates raw s (ok ps) h = h
of_parsed-Adopted E candidates raw s (err e) h = tt
of_parsed-Adopted E candidates raw s (raised x) h = tt

of_call-Adopted :
    {S : Type 0} (E : Type 0) (reader : Reader) (model : String) (candidates : List String)
    (x : Result LlmError LlmRaw × S)
    → Adopted {E = E} candidates (of_call reader model candidates x)
unfolding of_call
of_call-Adopted E reader model candidates (ok raw, s) =
    of_parsed-Adopted E candidates raw s (parse_llm_response reader raw.text candidates)
      (parse-AllOnIf reader raw.text candidates)
of_call-Adopted E reader model candidates (err e, s) = tt
of_call-Adopted E reader model candidates (raised x, s) = tt

-- Whatever the LLM answers, every proposal that `propose` adopts is on one of the candidates.
pub propose-Adopted :
    {S : Type 0} (E : Type 0) (reader : Reader) (client : LlmClient S) (prompt : Prompt)
    (candidates : List String) (s : S)
    → Adopted {E = E} candidates (propose reader client prompt candidates s)
unfolding propose
propose-Adopted E reader client prompt [] s = tt
propose-Adopted E reader client prompt (t ∷ ts) s =
    of_call-Adopted E reader client.model (t ∷ ts) (client.complete prompt s)
