-- ===== src/Server/Accept/Tests.antt =====
-- A limit of one connection.
use rdrive.Base.{◌+◌, ◌≡◌, ◌↔◌, refl, false}
use rdrive.Server.Accept.{Slots, no_slots, accept, crash, arrival, panicking, Course, still, turn}
use rdrive.Server.Accept.Counter.{IsCounted, Course-IsCounted, accept_refused_iff}

one : Slots
unfolding accept
one = (accept 1 no_slots).1

one-Course : Course 1 no_slots one
unfolding one
one-Course = turn still arrival

lost : Slots
unfolding one crash
lost = crash one

lost-Course : Course 1 no_slots lost
unfolding lost one accept
lost-Course = turn one-Course (panicking refl)

Course-IsCounted_example : IsCounted 1 one
Course-IsCounted_example = Course-IsCounted 1 one-Course

accept_refused_iff_example : ((accept 1 one).0 ≡ false) ↔ (one.running + one.crashed ≡ 1)
accept_refused_iff_example = accept_refused_iff 1 one one-Course
