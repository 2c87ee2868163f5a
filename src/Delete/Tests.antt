-- ===== src/Delete/Tests.antt =====
-- Histories of the delete button.
use own_pastebin.Prelude.{[], ◌≡◌}
use own_pastebin.Page.{Env}
use own_pastebin.Delete.{Deleter, truthy, parsing, start, click, respond, finish}
use own_pastebin.Delete.Safety.{
  Ends, here, Reach, none_yet, and_then, clicked, responded, IsValid, delete_one_wait,
  delete_sent_once,
}

abbrev env : Env
env = record { prefix = []; catalogue = []; encode = λ t. t }

abbrev answered : Deleter
answered = respond env 200 (record (click start) { pending = [] })

answered-Reach : Reach env start answered
unfolding start click
answered-Reach = and_then (and_then none_yet (clicked start)) (responded 200 (click start) [] here)

delete_one_wait_example : IsValid env answered
delete_one_wait_example = delete_one_wait env answered answered-Reach

abbrev done : Deleter
done = finish env truthy (record answered { pending = [] })

answered_waits : Ends parsing answered.pending []
unfolding respond click start
answered_waits = here

delete_sent_once_example : click done ≡ done
delete_sent_once_example =
    delete_sent_once env answered [] truthy (click done) answered-Reach answered_waits
      (and_then none_yet (clicked done))
