-- ===== src/MqttApi/Lifecycle/Examples.antt =====
-- A regular end, and a panic that nobody is told of.
use rinklers.Prelude.{◌≡◌, refl, true, false, done, panicked}
use rinklers.MqttApi.Lifecycle.{
  releasing, gone, ok, stopped, MqttApi, start_new, upgrade, joined, stop, by_itself, crashing,
  move_thread, of_stop, of_thread, Steps, here, then_step, take_back,
}
use rinklers.MqttApi.Lifecycle.Ends.{Returned, stop-Returned}

-- `stop` returns after the thread has.
abbrev ended : MqttApi
ended = record { thread = gone (done tt); running = false; call = stopped ok }

ended-Steps : Steps start_new 6 ended
unfolding start_new upgrade joined stop move_thread
ended-Steps =
    then_step
      (then_step
        (then_step
          (then_step (then_step (then_step here (of_stop 0 refl)) (of_stop 0 refl))
            (of_thread by_itself refl))
          (of_stop 0 refl))
        (of_thread by_itself refl))
      (of_stop 0 refl)

stop-Returned_example : Returned ok (gone (done tt))
stop-Returned_example = stop-Returned 6 ended ok ended-Steps refl

-- The thread has panicked before the call, and still holds the state.
abbrev crashed : MqttApi
crashed = record { thread = releasing panicked; running = true; call = stopped ok }

crash_unreported : Steps start_new 2 crashed × (take_back ok crashed.thread ≡ panicked)
unfolding start_new upgrade stop move_thread take_back
crash_unreported = (then_step (then_step here (of_thread crashing refl)) (of_stop 0 refl), refl)
