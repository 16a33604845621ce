-- ===== src/Tables/Queue/Run.antt =====
-- Sequences of calls on a `Queue`, against the same calls on the bounded FIFO.
use rs_reticulum_lite.Prelude.{
  ℕ, zero, suc, ◌+◌, ◌%◌, ◌<◌, ◌≡◌, refl, ◌∙◌, ◌⊎◌, inl, inr, List, [], ◌∷◌, map, Option, none,
  some, Bool, false, ◌==◌, leb, ◌||◌, arith, length, length-set, length-replicate, length-map,
  get_or, max, Bool-cases,
}
use mathlib.Core.Option
use rs_reticulum_lite.Tables.Queue.{
  Queue, capacity, cons_some, clear, push_drop_oldest, iter_from, iter, iter_mut, get_mut, remove,
  pop, new,
}
use rs_reticulum_lite.Tables.Queue.Fifo
use rs_reticulum_lite.Tables.Queue.Valid.{IsValid, iter_empty}
use rs_reticulum_lite.Tables.Queue.Push.{push_refines}
use rs_reticulum_lite.Tables.Queue.Pop.{pop_refines}
use rs_reticulum_lite.Tables.Queue.Remove.{remove_refines, get_mut_refines, length-shift_down}

-- A call on a queue.
pub data Call {ℓ} (A : Type ℓ) : Type ℓ where
  pushes : A → Call A
  pops : Call A
  removes : ℕ → Call A
  updates : ℕ → (A → A) → Call A
  clears : Call A

-- What a caller sees of a call: whether an entry was evicted, and the entry returned.
abbrev pub Reply {ℓ} : Type ℓ → Type ℓ
Reply A = Bool × Option A

module _ {ℓ} {A : Type ℓ} where
  empty-IsValid : (q : Queue A) → q.len ≡ 0 → q.head ≡ 0 → IsValid q
  empty-IsValid q l h = record {
    fits = omega arith;
    head_in = first (capacity q);
    filled = λ i hi. absurd (omega arith);
  }
    where
      first : (n : ℕ) → (n ≡ 0) ⊎ (q.head < n)
      first zero = inl refl
      first (suc n) = inr (omega arith)

  -- `clear` and `new` give an empty queue of the same capacity.
  pub clear-IsValid :
      (q : Queue A) → IsValid (clear q) × (iter (clear q) ≡ []) × (capacity (clear q) ≡ capacity q)
  unfolding clear
  clear-IsValid q = (
    empty-IsValid (clear q) refl refl,
    iter_empty (clear q) refl,
    length-replicate (capacity q) none,
  )

  capacity-push : (q : Queue A) (v : A) → capacity (push_drop_oldest q v).0 ≡ capacity q
  unfolding push_drop_oldest
  capacity-push q v = ground (
    arith,
    length-set q.entries q.head (some v),
    length-set q.entries ((q.head + q.len) % capacity q) (some v),
  )

  capacity-pop : (q : Queue A) → capacity (pop q).1 ≡ capacity q
  unfolding pop
  capacity-pop q = ground (arith, length-set q.entries q.head none)

  capacity-remove : (q : Queue A) (o : ℕ) → capacity (remove o q).1 ≡ capacity q
  unfolding remove
  capacity-remove q o = elim (Bool-cases (leb q.len o || capacity q == 0)) [
    | inl t ↦ rw t refl
    | inr f ↦ rw f (length-shift_down q.head _ o _ ∙ length-set q.entries _ none)
  ]

  capacity-get_mut : (q : Queue A) (o : ℕ) (f : A → A) → capacity (get_mut o f q) ≡ capacity q
  unfolding get_mut
  capacity-get_mut q o f = elim (Bool-cases (leb q.len o || capacity q == 0)) [
    | inl t ↦ rw t refl
    | inr b ↦ rw b (length-set q.entries _ _)
  ]

  pub step : Queue A → Call A → Reply A × Queue A
  step q (pushes v) = let (q', evicted) = push_drop_oldest q v in ((evicted, none), q')
  step q pops = let (out, q') = pop q in ((false, out), q')
  step q (removes o) = let (out, q') = remove o q in ((false, out), q')
  step q (updates o f) = ((false, none), get_mut o f q)
  step q clears = ((false, none), clear q)

  pub spec_step : ℕ → List A → Call A → Reply A × List A
  spec_step n xs (pushes v) = let (ys, evicted) = Fifo.push n xs v in ((evicted, none), ys)
  spec_step n xs pops = let (out, ys) = Fifo.pop xs in ((false, out), ys)
  spec_step n xs (removes o) = ((false, Fifo.get xs o), Fifo.remove_at o xs)
  spec_step n xs (updates o f) = ((false, none), Fifo.modify o f xs)
  spec_step n xs clears = ((false, none), [])

  -- What a call returns, and what `iter` lists after it, for each call in turn.
  pub run : Queue A → List (Call A) → List (Reply A × List A)
  run q [] = []
  run q (c ∷ cs) = let (r, q') = step q c in (r, iter q') ∷ run q' cs

  pub spec_run : ℕ → List A → List (Call A) → List (Reply A × List A)
  spec_run n xs [] = []
  spec_run n xs (c ∷ cs) = let (r, ys) = spec_step n xs c in (r, ys) ∷ spec_run n ys cs

  -- What one call leaves and returns.
  record Agrees (q : Queue A) (c : Call A) : Type ℓ where
    valid : IsValid (step q c).1
    room : capacity (step q c).1 ≡ capacity q
    same : ((step q c).0, iter (step q c).1) ≡ spec_step (capacity q) (iter q) c

  step-Agrees : (q : Queue A) (c : Call A) → IsValid q → Agrees q c
  unfolding step spec_step
  step-Agrees q (pushes v) val =
      let (k, e) = push_refines q v val in
      record { valid = k; room = capacity-push q v; same = λ i. (((e i).1, none), (e i).0) }
  step-Agrees q pops val =
      let (k, rest, out, _) = pop_refines q val in
      record { valid = k; room = capacity-pop q; same = λ i. ((false, out i), rest i) }
  step-Agrees q (removes o) val =
      let (k, rest, out) = remove_refines q o val in
      record { valid = k; room = capacity-remove q o; same = λ i. ((false, out i), rest i) }
  step-Agrees q (updates o f) val =
      let (k, rest) = get_mut_refines q f o val in
      record { valid = k; room = capacity-get_mut q o f; same = λ i. ((false, none), rest i) }
  step-Agrees q clears val =
      let (k, rest, room) = clear-IsValid q in
      record { valid = k; room = room; same = λ i. ((false, none), rest i) }

  run_of_valid :
      (q : Queue A) (cs : List (Call A)) → IsValid q → run q cs ≡ spec_run (capacity q) (iter q) cs
  unfolding run spec_run
  run_of_valid q [] val = refl
  run_of_valid q (c ∷ cs) val =
      let a = step-Agrees q c val in
      let rest : run (step q c).1 cs
          ≡ spec_run (capacity q) (spec_step (capacity q) (iter q) c).1 cs =
        run_of_valid (step q c).1 cs a.valid ∙ (λ i. spec_run (a.room i) (a.same i).1 cs) in
      λ i. a.same i ∷ rest i

  -- No sequence of calls tells a new queue of capacity `n` from an empty FIFO of at most `n`
  -- entries, by what the calls return or by what `iter` lists between them.
  pub run-new : (n : ℕ) (cs : List (Call A)) → run (new A n) cs ≡ spec_run n [] cs
  unfolding new
  run-new n cs =
      let q = new A n in
      let room : capacity q ≡ n = length-replicate n none in
      run_of_valid q cs (empty-IsValid q refl refl)
      ∙ (λ i. spec_run (room i) (iter_empty q refl i) cs)

  get_or-map :
      (es : List (Option A)) (f : A → A) (i : ℕ)
      → get_or (map (Option.map f) es) i none ≡ Option.map f (get_or es i none)
  get_or-map [] f i = refl
  get_or-map (e ∷ es) f zero = refl
  get_or-map (e ∷ es) f (suc i) = get_or-map es f i

  map-cons_some :
      (f : A → A) (o : Option A) (xs : List A)
      → cons_some (Option.map f o) (map f xs) ≡ map f (cons_some o xs)
  map-cons_some f none xs = refl
  map-cons_some f (some a) xs = refl

  iter_from-map :
      (es : List (Option A)) (f : A → A) (h n o : ℕ)
      → iter_from (map (Option.map f) es) h n o ≡ map f (iter_from es h n o)
  unfolding iter_from
  iter_from-map es f h zero o = refl
  iter_from-map es f h (suc n) o =
      let k = (h + o) % max (length es) 1 in
      rw (length-map es (Option.map f), get_or-map es f k, iter_from-map es f h n (o + 1))
        (map-cons_some f (get_or es k none) (iter_from es h n (o + 1)))

  -- `iter_mut` reaches every entry that `iter` lists.
  pub iter-iter_mut : (q : Queue A) (f : A → A) → iter (iter_mut f q) ≡ map f (iter q)
  unfolding iter iter_mut
  iter-iter_mut q f = iter_from-map q.entries f q.head q.len 0
