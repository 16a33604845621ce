-- ===== src/Tables/Path/Run.antt =====
-- The states that the calls on a `PathTable` of src/tables.rs reach.
use rs_reticulum_lite.Prelude.{
  ℕ, ◌≡◌, refl, sym, ap, List, [], ◌∷◌, Option, none, some, true, length, replicate,
}
use rs_reticulum_lite.Tables.Slots.{clear_if}
use rs_reticulum_lite.Tables.Path.{
  PathEntry, PathTable, Hash16, clear, new, touch, drop_path, remove_interface, expire,
  insert_or_update,
}
use rs_reticulum_lite.Tables.Path.Valid.{
  IsValid, cleared-IsValid, expire-IsValid, insert_or_update-IsValid, remove_interface-IsValid,
  drop_path-IsValid, touch-IsValid, new-IsValid,
}

-- What calls in any order, at any times, make of a table.
pub data IsAfter (start : PathTable) : PathTable → Type 0 where
  starts : IsAfter start start
  inserts :
      (t : PathTable) (entry : PathEntry) (now : ℕ)
      → IsAfter start t
      → IsAfter start (insert_or_update t entry now).0
  touches :
      (t : PathTable) (key : Hash16) (now : ℕ) → IsAfter start t → IsAfter start (touch t key now)
  drops : (t : PathTable) (key : Hash16) → IsAfter start t → IsAfter start (drop_path t key).0
  removes :
      (t : PathTable) (interface : ℕ)
      → IsAfter start t
      → IsAfter start (remove_interface t interface)
  expires : (t : PathTable) (now : ℕ) → IsAfter start t → IsAfter start (expire t now)
  clears : (t : PathTable) → IsAfter start t → IsAfter start (clear t)

-- What they make of a new table of `n` slots.
abbrev pub IsReachable : ℕ → PathTable → Type 0
IsReachable n t = IsAfter (new n) t

clear_if_all : (es : List (Option PathEntry)) → clear_if (λ _. true) es ≡ replicate (length es) none
unfolding clear_if
clear_if_all [] = refl
clear_if_all (none ∷ es) = ap (◌∷◌ none) (clear_if_all es)
clear_if_all (some e ∷ es) = ap (◌∷◌ none) (clear_if_all es)

clear-IsValid : (t : PathTable) → IsValid t → IsValid (clear t)
unfolding clear
clear-IsValid t v = rw (sym (clear_if_all t.entries)) (cleared-IsValid (λ _. true) t v)

pub IsAfter-IsValid : (s t : PathTable) → IsValid s → IsAfter s t → IsValid t
IsAfter-IsValid s t v starts = v
IsAfter-IsValid s t v (inserts u entry now r) =
    insert_or_update-IsValid u entry now (IsAfter-IsValid s u v r)
IsAfter-IsValid s t v (touches u key now r) = touch-IsValid u key now (IsAfter-IsValid s u v r)
IsAfter-IsValid s t v (drops u key r) = drop_path-IsValid u key (IsAfter-IsValid s u v r)
IsAfter-IsValid s t v (removes u interface r) =
    remove_interface-IsValid u interface (IsAfter-IsValid s u v r)
IsAfter-IsValid s t v (expires u now r) = expire-IsValid u now (IsAfter-IsValid s u v r)
IsAfter-IsValid s t v (clears u r) = clear-IsValid u (IsAfter-IsValid s u v r)

-- In every table that calls reach, in any order and at any times, destinations are unique, and
-- generations are distinct, at most the last one, and owned by the slots that are filled.
pub IsReachable-IsValid : (n : ℕ) (t : PathTable) → IsReachable n t → IsValid t
IsReachable-IsValid n t r = IsAfter-IsValid (new n) t (new-IsValid n) r
