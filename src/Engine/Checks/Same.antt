-- ===== src/Engine/Checks/Same.antt =====
-- What isChecksEqual of go/internal/engine.go takes for equal.
use Prim.Native.String.{◌++◌ as append}
use netbird_minimal.Common.{
  String, ◌≡◌, refl, true, List, [], ◌∷◌, arith, str_eq_self, text_le, insert_sorted, sort_strings,
  join,
}
use netbird_minimal.Common.Outcome.{ok}
use netbird_minimal.Engine.Netip.{Netip}
use netbird_minimal.Engine.PeerEnv.{PeerEnv}
use netbird_minimal.Engine.Messages.{Check}
use netbird_minimal.Engine.SyncEnv.{SyncEnv}
use netbird_minimal.Engine.SyncState.{Engine}
use netbird_minimal.Engine.Checks.{slices_equal, normalize, is_checks_equal, update_checks_if_new}

slices_equal_self : (xs : List String) → slices_equal xs xs ≡ true
unfolding slices_equal
slices_equal_self [] = refl
slices_equal_self (x ∷ xs) = ground (arith, str_eq_self x, slices_equal_self xs)

abbrev pub one_file : String → Check
one_file a = record { files = a ∷ [] }

abbrev pub two_files : String → String → Check
two_files a b = record { files = a ∷ b ∷ [] }

join_two :
    (a b : String)
    → text_le a b ≡ true
    → normalize (two_files a b ∷ []) ≡ append a (append "|" b) ∷ []
unfolding normalize sort_strings insert_sorted join
join_two a b h = ground arith

join_one : (a : String) → normalize (one_file a ∷ []) ≡ a ∷ []
unfolding normalize sort_strings insert_sorted join
join_one a = refl

-- updateChecksIfNew takes a check of two files and a check of the one file that is their names
-- around a bar for the same, so that the new check is not stored and not sent.
pub update_checks_if_new_ambiguous :
    {net : Netip} {peers : PeerEnv net} (env : SyncEnv peers) (e : Engine env) (a b : String)
    → text_le a b ≡ true
    → e.checks ≡ one_file (append a (append "|" b)) ∷ []
    → update_checks_if_new env (two_files a b ∷ []) e ≡ (ok tt, e)
unfolding update_checks_if_new is_checks_equal
update_checks_if_new_ambiguous env e a b h c = ground (
  arith,
  c,
  join_two a b h,
  join_one (append a (append "|" b)),
  slices_equal_self (append a (append "|" b) ∷ []),
)
