-- ===== src/Rules/Lock.antt =====
-- src/trader/rules/lock.py: the lock that pins the approved rules. Reading the files and hashing
-- are Python's, and so is `splitlines`.
pub mod Verifying
use Prim.Native.String.{◌++◌, len, slice}
use text.Mathlib.Text.{starts_with}
use kyo_trading_tool.Prelude.{
  Bool, true, false, not, ◌&&◌, ◌||◌, Option, none, some, List, [], ◌∷◌, String, str_eq,
  if◌then◌else◌,
}
use kyo_trading_tool.Domain.Result.{Result, ok, err, raised}

-- `RulesError.message`
abbrev pub RulesError : Type 0
RulesError = String

abbrev pub sha_prefix : String
sha_prefix = "sha256: "

abbrev pub approved_by_prefix : String
approved_by_prefix = "approved_by: "

abbrev pub approved_at_prefix : String
approved_at_prefix = "approved_at: "

abbrev pub malformed : RulesError
malformed = "lock が無い、または形式が不正"

pub record RulesLock : Type 0 where
  pub sha256 : String
  pub approved_by : String
  pub approved_at : String

unfoldable pub render_lock : RulesLock → String
render_lock lock =
    (sha_prefix ++ lock.sha256)
    ++ ("\n"
        ++ ((approved_by_prefix ++ lock.approved_by)
            ++ ("\n" ++ ((approved_at_prefix ++ lock.approved_at) ++ "\n"))))

-- `line[len(prefix) :]`
unfoldable pub after_prefix : String → String → String
after_prefix prefix line = slice line (len prefix) (len line)

-- the three lines
unfoldable pub parse_lines : String → String → String → Result RulesError RulesLock
parse_lines sha_line approved_by_line approved_at_line =
    if not (starts_with sha_line sha_prefix)
      || (not (starts_with approved_by_line approved_by_prefix)
          || not (starts_with approved_at_line approved_at_prefix))
    then err malformed
    else if str_eq (after_prefix sha_prefix sha_line) ""
    then err malformed
    else ok (record {
      sha256 = after_prefix sha_prefix sha_line;
      approved_by = after_prefix approved_by_prefix approved_by_line;
      approved_at = after_prefix approved_at_prefix approved_at_line;
    })

-- `if len(lines) != 3`
unfoldable pub parse_split : List String → Result RulesError RulesLock
parse_split [] = err malformed
parse_split (a ∷ []) = err malformed
parse_split (a ∷ b ∷ []) = err malformed
parse_split (a ∷ b ∷ c ∷ []) = parse_lines a b c
parse_split (a ∷ b ∷ c ∷ d ∷ rest) = err malformed

unfoldable pub parse_lock : (String → List String) → String → Result RulesError RulesLock
parse_lock splitlines text = parse_split (splitlines text)

-- the two files: whether the lock is there, its text, and the hash of the rules, where readable
pub record Files : Type 0 where
  pub lock_exists : Bool
  pub lock_text : Option String
  pub yaml_sha256 : Option String

-- `sha256_of_file`
unfoldable pub sha256_of_file : Option String → Result RulesError String
sha256_of_file none = err "could not read rules file"
sha256_of_file (some sha) = ok sha

unfoldable pub compare_hash : RulesLock → Result RulesError String → Result RulesError RulesLock
compare_hash lock (ok sha) =
    if str_eq sha lock.sha256 then ok lock else err "rules lock が現在のルールファイルと一致しない(承認されていない変更)"
compare_hash lock (err e) = err e
compare_hash lock (raised x) = raised x

unfoldable pub check_hash :
    Option String → Result RulesError RulesLock → Result RulesError RulesLock
check_hash yaml_sha256 (ok lock) = compare_hash lock (sha256_of_file yaml_sha256)
check_hash yaml_sha256 (err e) = err e
check_hash yaml_sha256 (raised x) = raised x

unfoldable pub verify_text :
    (String → List String) → Option String → Option String → Result RulesError RulesLock
verify_text splitlines yaml_sha256 none = err "rules lock を読み込めない"
verify_text splitlines yaml_sha256 (some text) = check_hash yaml_sha256 (parse_lock splitlines text)

unfoldable pub verify_lock : (String → List String) → Files → Result RulesError RulesLock
verify_lock splitlines files =
    if files.lock_exists
    then verify_text splitlines files.yaml_sha256 files.lock_text
    else err "rules lock が無い(trader rules approve を実行してください)"

-- `write_lock`: what the files are after it; `writable` says whether the file system allows it
unfoldable pub write_lock : Bool → RulesLock → Files → Result RulesError (Unit {0}) × Files
write_lock writable lock files =
    if writable
    then (ok tt, record files { lock_exists = true; lock_text = some (render_lock lock) })
    else (err "rules lock を書き込めない", files)
