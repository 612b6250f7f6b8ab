-- ===== src/Cycles/Lifecycle/Successor.antt =====
-- server/src/cycles/lifecycle.ts: the cycle that follows a closed one, and the group's pointer.
use rewind_app.Common.{
  ℕ, ◌+◌, ◌-◌, ◌≤◌, ◌<◌, ◌≡◌, refl, inl, inr, Bool, true, false, ◌&&◌, none, some, List, [], ◌∷◌,
  ◌++◌, ◌==◌, ==_refl, same, if◌then◌else◌, find, find_sound, find-update, find-append, any,
  any-find, or_else, ok, Option-cases, arith, latest,
}
use rewind_app.Tables.{CycleRow, GroupRow, EventRow, next_cycle_created, Transition, Database}
use rewind_app.Cycles.Lifecycle.{
  is_cycle, follows, collides, read_cycle, checked_cycle, successor_row, is_event, same_transition,
  add_event, move_pointer, ensure_successor, create_successor, read_successor,
}

same_transition_refl : (t : Transition) → same_transition t t ≡ true
same_transition_refl t = ground arith

-- The first event of a cycle and a transition after one has been added: the one there was, or it.
pub add_event-find :
    (event : EventRow) (events : List EventRow)
    → let p = is_event event.cycle_id event.transition in
      find p (add_event event events) ≡ some (or_else (find p events) event)
unfolding add_event
add_event-find event events =
    let p = is_event event.cycle_id event.transition in
    ground (
      arith,
      any-find p events,
      find-append p events (event ∷ []),
      same_transition_refl event.transition,
      ==_refl event.cycle_id,
    )

pub add_event-find_other :
    (event : EventRow) (events : List EventRow) (c : ℕ) (t : Transition)
    → is_event c t event ≡ false
    → find (is_event c t) (add_event event events) ≡ find (is_event c t) events
unfolding add_event
add_event-find_other event events c t n =
    ground (arith, n, find-append (is_event c t) events (event ∷ []))

free_id :
    (next_id : ℕ) (cycle : CycleRow) (g : ℕ) (cs : List CycleRow)
    → any (collides next_id cycle) cs ≡ false
    → find (is_cycle next_id g) cs ≡ none
free_id next_id cycle g [] h = refl
free_id next_id cycle g (c ∷ cs) h = ground (arith, h, free_id next_id cycle g cs)

-- A cycle that starts before it ends, whose end and duration reach no further than the latest
-- date, gets a successor if it has none, if the new identifier is free and if no cycle of another
-- group names it as the one before: the successor starts at the end of the cycle, lasts as long,
-- has its prompt and quota, is collecting, locked and unused, and is what is then read as the
-- successor.
pub ensure_successor-new :
    (next_id : ℕ) (cycle : CycleRow) (db : Database) (starts ends : ℕ)
    → cycle.starts_at ≡ some starts
    → cycle.ends_at ≡ some ends
    → starts < ends
    → ends + (ends - starts) ≤ latest
    → find (follows cycle.id cycle.group_id) db.cycles ≡ none
    → any (collides next_id cycle) db.cycles ≡ false
    → (r : Database × CycleRow) × (ensure_successor next_id cycle db ≡ ok r)
      × (r.1 ≡ successor_row next_id cycle ends (ends + (ends - starts)))
      × (read_successor cycle.id cycle.group_id r.0.cycles ≡ ok (some r.1))
unfolding ensure_successor create_successor read_successor read_cycle checked_cycle
ensure_successor-new next_id cycle db starts ends es ee lt fit none_yet free =
    let row = successor_row next_id cycle ends (ends + (ends - starts)) in
    let found : find (is_cycle next_id cycle.group_id) (db.cycles ++ row ∷ []) ≡ some row = ground (
      arith,
      free_id next_id cycle cycle.group_id db.cycles free,
      find-append (is_cycle next_id cycle.group_id) db.cycles (row ∷ []),
      ==_refl next_id,
      ==_refl cycle.group_id,
    ) in
    let follower : find (follows cycle.id cycle.group_id) (db.cycles ++ row ∷ []) ≡ some row =
      ground
        (arith, none_yet, find-append (follows cycle.id cycle.group_id) db.cycles (row ∷ [])) in
    let event : EventRow = record {
      cycle_id = cycle.id;
      group_id = cycle.group_id;
      transition = next_cycle_created;
      occurred_at = ends;
    } in
    (
      (
        record db {
          cycles = db.cycles ++ row ∷ [];
          events = add_event event db.events;
          groups = move_pointer next_id cycle db.groups;
        },
        row,
      ),
      ground (arith, none_yet, es, ee, lt, fit, free),
      refl,
      ground (arith, follower, found),
    )

-- When a successor was ensured, every group is still stored, and its pointer is as it was unless
-- it is the cycle's group and its pointer was at the cycle: then it is at the successor.
pub ensure_successor-pointer :
    (next_id : ℕ) (cycle : CycleRow) (db : Database) (r : Database × CycleRow) (k : ℕ)
    (group : GroupRow)
    → ensure_successor next_id cycle db ≡ ok r
    → find (λ (g : GroupRow). g.id == k) db.groups ≡ some group
    → (group' : GroupRow) × (find (λ (g : GroupRow). g.id == k) r.0.groups ≡ some group')
      × (group'.current_cycle_id ≡ (
          if (k == cycle.group_id) && same group.current_cycle_id (some cycle.id)
          then some r.1.id
          else group.current_cycle_id))
unfolding ensure_successor create_successor move_pointer
ensure_successor-pointer next_id cycle db r k group h e =
    let moves : GroupRow → Bool =
      λ g. (g.id == cycle.group_id) && same g.current_cycle_id (some cycle.id) in
    let move : GroupRow → GroupRow = λ g. record g { current_cycle_id = some r.1.id } in
    let own : group.id ≡ k = ground (arith, find_sound (λ (g : GroupRow). g.id == k) db.groups e) in
    (
      (if moves group then move group else group),
      ground (arith, h, e, find-update (λ (g : GroupRow). g.id == k) moves move db.groups),
      ground (arith, own),
    )

-- A successor logs no other transition than its own.
pub ensure_successor-find :
    (next_id : ℕ) (cycle : CycleRow) (db : Database) (r : Database × CycleRow) (c : ℕ)
    (t : Transition)
    → ensure_successor next_id cycle db ≡ ok r
    → same_transition next_cycle_created t ≡ false
    → find (is_event c t) r.0.events ≡ find (is_event c t) db.events
unfolding ensure_successor create_successor
ensure_successor-find next_id cycle db r c t h apart = elim (Option-cases cycle.ends_at) [
  | inl n ↦ ground (arith, h, n)
  | inr (ends, e) ↦ ground (
    arith,
    h,
    e,
    add_event-find_other
        (record {
          cycle_id = cycle.id;
          group_id = cycle.group_id;
          transition = next_cycle_created;
          occurred_at = ends;
        })
        db.events c t (ground (arith, apart)),
  )
]
