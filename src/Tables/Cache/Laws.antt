-- ===== src/Tables/Cache/Laws.antt =====
-- What `AnnounceCache` of src/tables.rs keeps and finds.
use rs_reticulum_lite.Prelude.{
  ℕ, ◌≡◌, refl, sym, ◌∙◌, List, [], ◌∷◌, Option, none, some, Bool, true, false, ◌&&◌, if◌then◌else◌,
  ltb, is_some, is_none, length, ◌⊎◌, inl, inr, Bool-cases, Option-cases,
}
use rs_reticulum_lite.Prelude.Bytes.{bytes_eq, eq_of_bytes_eq}
use rs_reticulum_lite.Tables.Slots.{find, count}
use rs_reticulum_lite.Tables.Slots.Lookup.{find-clear_failing}
use rs_reticulum_lite.Tables.Slots.Unique.{Unique}
use rs_reticulum_lite.Tables.Path.{PathTable, get_live}
use rs_reticulum_lite.Tables.Cache.{CachedAnnounce, AnnounceCache, announces, get, retain_paths}

find_never : (es : List (Option CachedAnnounce)) → find (λ _. false) es ≡ none
unfolding find
find_never [] = refl
find_never (none ∷ es) = find_never es
find_never (some e ∷ es) = find_never es

-- Whether an entry of the destination has a route, or the destination has one, is the same test.
routed :
    (paths : PathTable) (now : ℕ) (key : List ℕ) (e : CachedAnnounce) (live : Bool)
    → (if is_none (get_live paths key now) then false else announces key e && live)
      ≡ (if is_none (get_live paths e.destination_hash now) then false else announces key e && live)
unfolding announces
routed paths now key e live = elim (Bool-cases (bytes_eq e.destination_hash key)) [
  | inl t ↦ rw (eq_of_bytes_eq e.destination_hash key t) refl
  | inr f ↦ rw f (
      if_false (is_none (get_live paths key now))
      ∙ sym (if_false (is_none (get_live paths e.destination_hash now))))
]
  where
    if_false : (b : Bool) → (if b then false else false) ≡ false
    if_false true = refl
    if_false false = refl

-- After `retain_paths` a destination is found as before if it has a live route, and is not found if
-- it has none.
pub get-retain_paths :
    (t : AnnounceCache) (paths : PathTable) (now later : ℕ) (key : List ℕ)
    → get (retain_paths t paths now) key later
      ≡ (if is_some (get_live paths key now) then get t key later else none)
unfolding get retain_paths
get-retain_paths t paths now later key =
    let p = λ (e : CachedAnnounce). announces key e && ltb later e.expires_ms in
    find-clear_failing p (λ e. is_none (get_live paths e.destination_hash now))
      (λ e. if is_none (get_live paths key now) then false else p e) t.entries
      (λ e. routed paths now key e (ltb later e.expires_ms))
    ∙ elim (Option-cases (get_live paths key now)) [
      | inl n ↦ rw n (find_never t.entries)
      | inr (r, s) ↦ rw s refl
    ]

-- No destination has two entries.
pub record IsValid (t : AnnounceCache) : Type 0 where
  pub unique : Unique (λ e. e.destination_hash) t.entries

-- What `insert` does with the slot it has found.
abbrev pub Stored : AnnounceCache → CachedAnnounce → ℕ → AnnounceCache → Type 0
Stored u e later t =
    IsValid t
    × ((get t e.destination_hash later ≡ some e)
        ⊎ ((t ≡ u)
            × (count (λ x. x.bulk) u.entries ≡ 0)
            × (count (λ _. true) u.entries ≡ length u.entries)
            × ((e.bulk ≡ true) ⊎ (length u.entries ≡ 0))))
