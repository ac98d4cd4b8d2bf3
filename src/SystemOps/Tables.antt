-- ===== src/SystemOps/Tables.antt =====
-- The routing tables that are listed: getAllRoutingTables and discoverRoutingTables of
-- go/internal/routemanager/systemops/systemops_linux.go.
mod Tests
use netbird_minimal.Common.{
  ℕ, ◌<◌, ◌≡◌, refl, ◌∙◌, ◌⊎◌, Bool, true, false, not, ◌&&◌, ◌||◌, Option, none, some, List, [],
  ◌∷◌, ◌++◌, arith, ◌==◌, ltb, if◌then◌else◌, All, inl, inr, Bool-cases,
}
use netbird_minimal.SystemOps.Types.{
  Family, v4, v6, rt_table_main, rt_table_local, netbird_vpn_table_id,
}

-- `tablesMap[n]`
unfoldable pub has_table : ℕ → List ℕ → Bool
has_table n [] = false
has_table n (t ∷ ts) = t == n || has_table n ts

-- `tablesMap[n] = true`
unfoldable pub mark_table : ℕ → List ℕ → List ℕ
unfolding has_table
mark_table n ts = if has_table n ts then ts else n ∷ ts

-- the loop over the routes of one family, by the tables of the routes
unfoldable pub mark_tables : List ℕ → List ℕ → List ℕ
unfolding mark_table
mark_tables [] ts = ts
mark_tables (n ∷ ns) ts = mark_tables ns (if ltb 0 n then mark_table n ts else ts)

-- the loop over `standardTables`, which looks only at the tables of the map
unfoldable pub add_standard : List ℕ → List ℕ → List ℕ → List ℕ
unfolding has_table
add_standard marked [] tables = tables
add_standard marked (n ∷ ns) tables =
    add_standard marked ns (if not (has_table n marked) then tables ++ (n ∷ []) else tables)

abbrev pub standard_tables : List ℕ
standard_tables = rt_table_main ∷ rt_table_local ∷ netbird_vpn_table_id ∷ []

-- the first loop of getAllRoutingTables, by what RouteListFiltered answers for each family: the
-- tables of its routes, or `none` for an error, which is skipped
unfoldable pub used_tables : (Family → Option (List ℕ)) → List ℕ
unfolding mark_tables
used_tables list_all =
    let m4 : List ℕ = elim (list_all v4) [ none ↦ [] | some ns ↦ mark_tables ns [] ] in
    elim (list_all v6) [ none ↦ m4 | some ns ↦ mark_tables ns m4 ]

-- getAllRoutingTables
unfoldable pub get_all_routing_tables : (Family → Option (List ℕ)) → List ℕ
unfolding used_tables add_standard
get_all_routing_tables list_all =
    add_standard (used_tables list_all) standard_tables (used_tables list_all)

-- discoverRoutingTables: getAllRoutingTables never returns an error, so its fallback is not used
unfoldable pub discover_routing_tables : (Family → Option (List ℕ)) → List ℕ
unfolding get_all_routing_tables
discover_routing_tables list_all = get_all_routing_tables list_all

-- Every table is a positive number, and none is listed twice.
abbrev pub IsTableList : List ℕ → Type 0
IsTableList [] = Unit
IsTableList (t ∷ ts) = (0 < t) × (has_table t ts ≡ false) × IsTableList ts

has_table-append :
    (k : ℕ) (xs ys : List ℕ) → has_table k (xs ++ ys) ≡ (has_table k xs || has_table k ys)
unfolding has_table
has_table-append k [] ys = refl
has_table-append k (x ∷ xs) ys = ground (arith, has_table-append k xs ys)

append-IsTableList :
    (xs : List ℕ) (n : ℕ)
    → IsTableList xs
    → 0 < n
    → has_table n xs ≡ false
    → IsTableList (xs ++ (n ∷ []))
unfolding has_table
append-IsTableList [] n t p h = (p, refl, tt)
append-IsTableList (x ∷ xs) n t p h = (
  t.0,
  has_table-append x xs (n ∷ []) ∙ ground arith,
  append-IsTableList xs n t.2 p (ground arith),
)

mark_table-IsTableList :
    (n : ℕ) (ts : List ℕ) → 0 < n → IsTableList ts → IsTableList (mark_table n ts)
unfolding mark_table
mark_table-IsTableList n ts p t = elim (Bool-cases (has_table n ts)) [
  | inl old ↦ rw (old, mark_table) t
  | inr new ↦ rw (new, mark_table) (p, new, t)
]

mark_tables-IsTableList : (ns ts : List ℕ) → IsTableList ts → IsTableList (mark_tables ns ts)
unfolding mark_tables
mark_tables-IsTableList [] ts t = t
mark_tables-IsTableList (n ∷ ns) ts t =
    mark_tables-IsTableList ns (if ltb 0 n then mark_table n ts else ts) (one (ltb 0 n) refl)
  where
    one : (b : Bool) → ltb 0 n ≡ b → IsTableList (if b then mark_table n ts else ts)
    one true e = mark_table-IsTableList n ts (ground arith) t
    one false e = t

-- One round of the loop over the standard tables.
abbrev with_standard : List ℕ → ℕ → List ℕ → List ℕ
with_standard marked n ts = if not (has_table n marked) then ts ++ (n ∷ []) else ts

with_standard-has :
    (marked : List ℕ) (n : ℕ) (ts : List ℕ) (k : ℕ)
    → has_table k (with_standard marked n ts)
      ≡ (has_table k ts || (n == k && not (has_table k marked)))
with_standard-has marked n ts k = elim (dec_eq n k) [
  | inl e ↦ rw e (with_self (has_table k marked))
  | inr ne ↦ with_other (has_table n marked) ne
]
  where
    dec_eq : (a b : ℕ) → (a ≡ b) ⊎ ((a == b) ≡ false)
    dec_eq a b = ground arith

    with_self :
        (b : Bool)
        → has_table k (if not b then ts ++ (k ∷ []) else ts) ≡ (has_table k ts || (k == k && not b))
    with_self true = ground arith
    with_self false = has_table-append k ts (k ∷ []) ∙ unfold has_table in ground arith

    with_other :
        (b : Bool)
        → (n == k) ≡ false
        → has_table k (if not b then ts ++ (n ∷ []) else ts)
          ≡ (has_table k ts || (n == k && not (has_table k marked)))
    with_other true h = ground arith
    with_other false h = has_table-append k ts (n ∷ []) ∙ unfold has_table in ground arith

add_standard-has :
    (marked ns ts : List ℕ) (k : ℕ)
    → has_table k (add_standard marked ns ts)
      ≡ (has_table k ts || (has_table k ns && not (has_table k marked)))
add_standard-has marked [] ts k = unfold add_standard has_table in ground arith
add_standard-has marked (n ∷ ns) ts k =
    joined (add_standard-has marked ns (with_standard marked n ts) k)
      (with_standard-has marked n ts k)
  where
    joined :
        has_table k (add_standard marked ns (with_standard marked n ts)) ≡ (
          has_table k (with_standard marked n ts) || (has_table k ns && not (has_table k marked)))
        → has_table k (with_standard marked n ts)
          ≡ (has_table k ts || (n == k && not (has_table k marked)))
        → has_table k (add_standard marked (n ∷ ns) ts)
          ≡ (has_table k ts || (has_table k (n ∷ ns) && not (has_table k marked)))
    joined a b = unfold add_standard in (a ∙ rw b (unfold has_table in ground arith))

add_standard-IsTableList :
    (marked ns ts : List ℕ)
    → IsTableList ts
    → IsTableList ns
    → ((k : ℕ) → has_table k ns ≡ true → has_table k ts ≡ has_table k marked)
    → IsTableList (add_standard marked ns ts)
add_standard-IsTableList marked [] ts t u h = unfold add_standard in t
add_standard-IsTableList marked (n ∷ ns) ts t u h =
    done (add_standard-IsTableList marked ns (with_standard marked n ts) one u.2 keeps)
  where
    here : has_table n ts ≡ has_table n marked
    here = h n (unfold has_table in ground arith)

    one : IsTableList (with_standard marked n ts)
    one = elim (Bool-cases (has_table n marked)) [
      | inl old ↦ rw old t
      | inr new ↦ rw new (append-IsTableList ts n t u.0 (here ∙ new))
    ]

    keeps :
        (k : ℕ)
        → has_table k ns ≡ true
        → has_table k (with_standard marked n ts) ≡ has_table k marked
    keeps k e = with_standard-has marked n ts k ∙ other (n == k) refl
      where
        other :
            (b : Bool)
            → (n == k) ≡ b
            → (has_table k ts || (b && not (has_table k marked))) ≡ has_table k marked
        other b q = ground (arith, h k (unfold has_table in ground arith))

    done :
        IsTableList (add_standard marked ns (with_standard marked n ts))
        → IsTableList (add_standard marked (n ∷ ns) ts)
    done x = unfold add_standard in x

used_tables-IsTableList : (list_all : Family → Option (List ℕ)) → IsTableList (used_tables list_all)
unfolding used_tables
used_tables-IsTableList list_all = both (list_all v4) (list_all v6)
  where
    first :
        (a : Option (List ℕ))
        → IsTableList (let r : List ℕ = elim a [ none ↦ [] | some ns ↦ mark_tables ns [] ] in r)
    first none = tt
    first (some ns) = mark_tables-IsTableList ns [] tt

    both :
        (a b : Option (List ℕ))
        → IsTableList (
            let m4 : List ℕ = elim a [ none ↦ [] | some ns ↦ mark_tables ns [] ] in
            let r : List ℕ = elim b [ none ↦ m4 | some ns ↦ mark_tables ns m4 ] in r)
    both a none = first a
    both a (some ns) = mark_tables-IsTableList ns _ (first a)

standard_lem : IsTableList standard_tables
unfolding has_table
standard_lem = (omega arith, refl, (omega arith, refl, (omega arith, refl, tt)))

-- getAllRoutingTables lists only positive table numbers and none of them twice, and the main, the
-- local and the VPN table are always among them, whatever netlink answers.
pub get_all_routing_tables_complete :
    (list_all : Family → Option (List ℕ))
    → IsTableList (get_all_routing_tables list_all)
      × All (λ n. has_table n (get_all_routing_tables list_all) ≡ true) standard_tables
unfolding get_all_routing_tables
get_all_routing_tables_complete list_all =
    let m = used_tables list_all in
    (
      add_standard-IsTableList m standard_tables m (used_tables-IsTableList list_all) standard_lem
          (λ k e. refl),
      (
        listed m rt_table_main (unfold has_table in refl),
        (
          listed m rt_table_local (unfold has_table in refl),
          (listed m netbird_vpn_table_id (unfold has_table in refl), tt),
        ),
      ),
    )
  where
    listed :
        (m : List ℕ) (n : ℕ)
        → has_table n standard_tables ≡ true
        → has_table n (add_standard m standard_tables m) ≡ true
    listed m n e = add_standard-has m standard_tables m n ∙ rw e (either (has_table n m))
      where
        either : (b : Bool) → (b || (true && not b)) ≡ true
        either b = ground arith
