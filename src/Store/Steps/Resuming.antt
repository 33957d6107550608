-- ===== src/Store/Steps/Resuming.antt =====
-- What `list_events_after` of store/tasks.rs lists: the events that a reader who has seen the
-- first ones still misses.
use opendaemon.Prelude.{
  ℕ, zero, suc, ◌+◌, String, Bool, ◌&&◌, ◌≡◌, refl, ap, ◌∙◌, List, [], ◌∷◌, select, ltb, arith, ◌≤◌,
}
use opendaemon.Task.Event.{TaskEvent}
use opendaemon.Store.World.{Db}
use opendaemon.Store.Rows.{of_task, events_after, order_by_sequence}
use opendaemon.Store.Steps.Numbering.{IsNumbered, events_of}

abbrev pub skip : {A : Type 0} → ℕ → List A → List A
skip zero xs = xs
skip (suc n) [] = []
skip (suc n) (x ∷ xs) = skip n xs

select-select :
    {A : Type 0} (p q : A → Bool) (xs : List A)
    → select (λ x. p x && q x) xs ≡ select q (select p xs)
select-select p q [] = refl
select-select p q (x ∷ xs) = ground (arith, select-select p q xs)

-- all numbers from `n` on are past a smaller cursor
all_past :
    (cursor n : ℕ) (es : List TaskEvent)
    → cursor + 1 ≤ n
    → IsNumbered n es
    → select (λ e. ltb cursor e.sequence) es ≡ es
all_past cursor n [] le h = refl
all_past cursor n (e ∷ es) le h = ground (arith, all_past cursor (n + 1) es)

-- the first `k` numbers are not
first_skipped :
    (cursor n k : ℕ) (es : List TaskEvent)
    → n + k ≡ cursor + 1
    → IsNumbered n es
    → select (λ e. ltb cursor e.sequence) es ≡ skip k es
first_skipped cursor n zero es q h = all_past cursor n es (omega arith) h
first_skipped cursor n (suc k) [] q h = refl
first_skipped cursor n (suc k) (e ∷ es) q h = ground (arith, first_skipped cursor (n + 1) k es)

in_order : (n : ℕ) (es : List TaskEvent) → IsNumbered n es → order_by_sequence es ≡ es
in_order n [] h = refl
in_order n (e ∷ []) h = refl
in_order n (e ∷ f ∷ es) h = ground (arith, in_order (n + 1) (f ∷ es))

skip-IsNumbered : (k n : ℕ) (es : List TaskEvent) → IsNumbered n es → IsNumbered (n + k) (skip k es)
skip-IsNumbered zero n es h = ground arith
skip-IsNumbered (suc k) n [] h = tt
skip-IsNumbered (suc k) n (e ∷ es) h = ground (arith, skip-IsNumbered k (n + 1) es)

-- Where a task's events are numbered 1, 2, 3 and so on, the events after a cursor are all of the
-- task's events but the first ones, as many as the cursor says: none is missing, repeated or out
-- of order.
pub events_after_lem :
    (id : String) (cursor : ℕ) (d : Db)
    → IsNumbered 1 (events_of id d)
    → events_after id cursor d ≡ skip cursor (events_of id d)
unfolding events_after
events_after_lem id cursor d h =
    ap order_by_sequence (
      select-select (of_task id) (λ e. ltb cursor e.sequence) d.task_events
      ∙ first_skipped cursor 1 cursor (events_of id d) (omega arith) h)
    ∙ in_order (1 + cursor) (skip cursor (events_of id d))
        (skip-IsNumbered cursor 1 (events_of id d) h)
