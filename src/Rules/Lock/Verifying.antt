-- ===== src/Rules/Lock/Verifying.antt =====
-- The lock that `trader rules approve` writes accepts the approved rules, and no others.
use Prim.Native.String.{◌++◌, len, slice}
use text.Mathlib.Text.{starts_with}
use text.Mathlib.TextPositions.{len-append, slice-append_middle, slice-append_left, eq_refl}
use text.Mathlib.TextLemmas.{append-nil}
use kyo_trading_tool.Prelude.{
  ◌+◌, ◌≡◌, ◌↔◌, refl, sym, ap, ◌∙◌, arith, true, false, Option, none, some, List, [], ◌∷◌, String,
  str_eq, eq_iff,
}
use kyo_trading_tool.Domain.Result.{ok}
use kyo_trading_tool.Rules.Lock.{
  RulesLock, Files, sha_prefix, approved_by_prefix, approved_at_prefix, render_lock, after_prefix,
  parse_lines, parse_split, parse_lock, sha256_of_file, compare_hash, check_hash, verify_text,
  verify_lock, write_lock,
}

starts_with-append : (p s : String) → starts_with (p ++ s) p ≡ true
starts_with-append p s = rw (slice-append_left p s) (eq_refl p)

after_prefix-append : (p s : String) → after_prefix p (p ++ s) ≡ s
unfolding after_prefix
after_prefix-append p s =
    ap (λ n. slice (p ++ s) (len p) n) (len-append p s)
    ∙ ap (λ t. slice (p ++ t) (len p) (len p + len s)) (sym (append-nil s))
    ∙ slice-append_middle p s ""

parse_lines-render :
    (lock : RulesLock)
    → str_eq lock.sha256 "" ≡ false
    → parse_lines
        (sha_prefix ++ lock.sha256)
        (approved_by_prefix ++ lock.approved_by)
        (approved_at_prefix ++ lock.approved_at)
      ≡ ok lock
unfolding parse_lines
parse_lines-render lock h =
    rw
      (
        starts_with-append sha_prefix lock.sha256,
        starts_with-append approved_by_prefix lock.approved_by,
        starts_with-append approved_at_prefix lock.approved_at,
        after_prefix-append sha_prefix lock.sha256,
        after_prefix-append approved_by_prefix lock.approved_by,
        after_prefix-append approved_at_prefix lock.approved_at,
        h,
      )
      refl

-- `splitlines` gives the three lines that the lock was rendered from
abbrev pub Splits : (String → List String) → RulesLock → Type 0
Splits splitlines lock =
    splitlines (render_lock lock)
    ≡ (sha_prefix ++ lock.sha256)
      ∷ (approved_by_prefix ++ lock.approved_by)
      ∷ (approved_at_prefix ++ lock.approved_at)
      ∷ []

parse_lock-render :
    (splitlines : String → List String) (lock : RulesLock)
    → Splits splitlines lock
    → str_eq lock.sha256 "" ≡ false
    → parse_lock splitlines (render_lock lock) ≡ ok lock
unfolding parse_lock parse_split
parse_lock-render splitlines lock s h = ap parse_split s ∙ parse_lines-render lock h

compare_hash_iff :
    (lock : RulesLock) (yaml : Option String)
    → (compare_hash lock (sha256_of_file yaml) ≡ ok lock) ↔ (yaml ≡ some lock.sha256)
unfolding compare_hash sha256_of_file
compare_hash_iff lock none = (λ h. absurd (cc h), λ h. absurd (cc h))
compare_hash_iff lock (some sha) = ground (arith, eq_iff sha lock.sha256)

-- After `write_lock` has written a lock with a hash that is not empty, in values without line breaks,
-- `verify_lock` gives back that very lock exactly when the rules can be read and have its hash: the
-- approved rules are accepted, and a later change of the rules is not.
pub write_lock-verify_lock :
    (splitlines : String → List String) (lock : RulesLock) (files : Files)
    → Splits splitlines lock
    → str_eq lock.sha256 "" ≡ false
    → (verify_lock splitlines (write_lock true lock files).1 ≡ ok lock)
      ↔ (files.yaml_sha256 ≡ some lock.sha256)
unfolding verify_lock write_lock verify_text check_hash
write_lock-verify_lock splitlines lock files s h =
    rw (parse_lock-render splitlines lock s h) (compare_hash_iff lock files.yaml_sha256)
