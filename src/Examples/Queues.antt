-- ===== src/Examples/Queues.antt =====
-- The theorems on the layout queues at concrete queues.
use xibo_linux.Base.{
  ◌+◌, ◌%◌, ◌≡◌, refl, Option, none, some, List, [], ◌∷◌, arith, ℤ, pos, get_elem?, filter,
}
use xibo_linux.Schedule.Item.{ScheduledLayout}
use xibo_linux.Schedule.Queue.{
  RegularLayoutQueue, next, previous, layout_index_by, default_priority,
}
use xibo_linux.Schedule.Queue.Priority.{add_all, top_priority, has_priority, add_all-empty}
use xibo_linux.Schedule.Queue.Rotation.{next_times, ids, next-round_robin, previous-next}
use xibo_linux.Examples.Clock.{at}

abbrev pub layout_of : ℤ → ℤ → ScheduledLayout (Option ℤ)
layout_of id priority = record {
  schedule_id = id;
  id = id;
  priority = priority;
  start_dt = at 50;
  end_dt = at 200;
  dependants = [];
  criterias = [];
}

abbrev pub mixed : List (ScheduledLayout (Option ℤ))
mixed = layout_of (pos 1) (pos 3) ∷ layout_of (pos 2) (pos 5) ∷ layout_of (pos 3) (pos 5) ∷ []

abbrev pub two_layouts : RegularLayoutQueue (Option ℤ)
two_layouts = record {
  queue = layout_of (pos 2) (pos 5) ∷ layout_of (pos 3) (pos 5) ∷ [];
  default_layout = none;
  next_index = 1;
  current_id = pos 2;
}

add_all-empty_example :
    add_all [] mixed ≡ filter (has_priority (top_priority default_priority mixed)) mixed
add_all-empty_example = add_all-empty mixed

next-round_robin_example :
    (q' : RegularLayoutQueue (Option ℤ)) × (id : ℤ) × (q'' : RegularLayoutQueue (Option ℤ))
    × (next_times 2 two_layouts ≡ some q')
    × (next q' ≡ some (id, q''))
    × (get_elem? (ids two_layouts.queue) ((1 + 2) % 2) ≡ some id)
    × (q''.queue ≡ two_layouts.queue)
next-round_robin_example = next-round_robin 2 two_layouts (omega arith)

previous-next_example :
    (id : ℤ) × (q' : RegularLayoutQueue (Option ℤ)) × (q'' : RegularLayoutQueue (Option ℤ))
    × (previous two_layouts ≡ some (id, q'))
    × (next q' ≡ some (pos 2, q''))
unfolding layout_index_by
previous-next_example = previous-next two_layouts 0 refl

-- The second layout of the higher priority follows, and then the first again.
next_runs :
    next two_layouts ≡ some (pos 3, record two_layouts { next_index = 0; current_id = pos 3 })
unfolding next
next_runs = refl
