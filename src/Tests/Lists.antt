-- ===== src/Tests/Lists.antt =====
-- list.c, stats.c, utils.c: the theorems at concrete values.
use so2_zeos.Prelude.{◌+◌, ◌*◌, ◌^◌, ◌≡◌, ◌<◌, inr, refl, List, [], ◌∷◌, arith, ◌↔◌, none, ◌≢◌}
use so2_zeos.LinkedList.{list_add, list_add_tail, list_del, init_list_head}
use so2_zeos.LinkedList.Queues.{Represents, enqueue, push, remove, open_list}
use so2_zeos.LinkedList.Queues.Insert.{list_add_tail-enqueue, list_add-push}
use so2_zeos.LinkedList.Queues.Remove.{list_del-remove}
use so2_zeos.LinkedList.Queues.Open.{init_list_head-open_list}
use so2_zeos.Clock.{do_div}
use so2_zeos.Clock.Division.{do_div-exact}
use so2_zeos.CopyData.{copy_data}
use so2_zeos.CopyData.Copied.{copy_data-moved, moved}
use so2_zeos.Stats.{
  Stats, user_to_sys, sys_to_user, refresh, st_run, st_ready, st_blocked, sub32, update_stats,
}
use so2_zeos.Stats.Accounting.{Reading, charged, account, charged-account, update_stats-eq-none_iff}
use so2_zeos.Kernel.Addresses.{readyqueue, anchor}
use so2_zeos.Tests.Machine.{
  heads, heads_links, heads-Represents, links, view, view-Represents, no_ticks,
}

list_add_tail-enqueue_example :
    Represents
      (list_add_tail (anchor 2) readyqueue heads_links)
      (enqueue (anchor 2) readyqueue heads)
list_add_tail-enqueue_example =
    list_add_tail-enqueue heads-Represents {a = anchor 2} {h = readyqueue}
      (record { head = refl; node = refl; real = omega arith; free = refl })

list_add-push_example :
    Represents (list_add (anchor 2) readyqueue heads_links) (push (anchor 2) readyqueue heads)
list_add-push_example =
    list_add-push heads-Represents {a = anchor 2} {h = readyqueue}
      (record { head = refl; node = refl; real = omega arith; free = refl })

list_del-remove_example : Represents (list_del (anchor 3) links) (remove (anchor 3) view)
list_del-remove_example = list_del-remove view-Represents (anchor 3) (omega arith)

init_list_head-open_list_example : Represents (init_list_head 201 links) (open_list 201 view)
init_list_head-open_list_example =
    init_list_head-open_list view-Represents 201 (omega arith) refl (λ a. ground arith)

do_div-exact_example :
    ((do_div 3 5 109000).quotient * 109000 + (do_div 3 5 109000).remainder ≡ 3 * 2 ^ 32 + 5)
    × ((do_div 3 5 109000).remainder < 109000)
do_div-exact_example = do_div-exact 3 5 109000 (omega arith) (omega arith)

copy_data-moved_example : copy_data 100 200 7 (λ a. a) 206 ≡ moved 7 100 200 (λ a. a) 206
copy_data-moved_example = copy_data-moved 100 200 7 (λ a. a) (inr (omega arith)) 206

copied_byte : copy_data 100 200 7 (λ a. a) 206 ≡ 106
unfolding copy_data
copied_byte = refl

abbrev history : List Reading
history =
    record { event = user_to_sys; state = st_run; quantum = 100; current_ticks = 3; now = 40 }
    ∷ record { event = sys_to_user; state = st_run; quantum = 100; current_ticks = 3; now = 90 }
    ∷ []

abbrev charged_ticks : Stats
charged_ticks = record no_ticks { user_ticks = 40; system_ticks = 50; elapsed_total_ticks = 90 }

charged-account_example :
    sub32 (charged charged_ticks) (charged no_ticks)
    ≡ sub32 charged_ticks.elapsed_total_ticks no_ticks.elapsed_total_ticks
unfolding account update_stats
charged-account_example =
    charged-account history no_ticks charged_ticks (tt, omega arith, (tt, omega arith, tt))
      (omega arith) refl

update_stats-eq-none_iff_example :
    (update_stats refresh st_ready 100 0 5 no_ticks ≡ none)
    ↔ ((refresh ≡ refresh) × (st_ready ≢ st_ready) × (st_ready ≢ st_blocked))
update_stats-eq-none_iff_example = update_stats-eq-none_iff refresh st_ready 100 0 5 no_ticks
