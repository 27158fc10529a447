-- ===== src/Api/HubTests.antt =====
-- A hub whose only subscriber left at once.
use logfort.Prelude.{ℕ, ◌+◌, ◌≤◌, ◌≡◌, refl, true, false, [], ◌∷◌, arith, length}
use logfort.Api.Hub.{
  Hub, Steps, subscribes, unsubscribes, publishes, takes_sub, takes_pub, done, then_step, new_hub,
  has, channel_capacity, on_sub, offer_all,
}
use logfort.Api.HubChannels.{occurs}
use logfort.Api.HubLaws.{hub_invariant}
use logfort.Api.HubLeak.{now, overtaken, leaked}

abbrev joined : Hub
joined = record new_hub { sub = 0 ∷ []; channels = 1 }

abbrev left_at_once : Hub
left_at_once = record joined { unsub = 0 ∷ [] }

leaving : Steps new_hub left_at_once
leaving = then_step (then_step done (subscribes (omega arith))) (unsubscribes 0 (omega arith))

leaked_example :
    Steps left_at_once (overtaken left_at_once 0 [] [])
    × (has 0 (overtaken left_at_once 0 [] []).subscribers ≡ true)
leaked_example =
    leaked left_at_once 0 [] [] leaving refl refl refl refl (overtaken left_at_once 0 [] []) now

abbrev served : Hub
served =
    offer_all "data" (0 ∷ []) (record (on_sub 0 (record joined { sub = [] })) { pub_queue = [] })

serving : Steps new_hub served
unfolding on_sub
serving =
    then_step
      (then_step (then_step (then_step done (subscribes (omega arith))) (takes_sub 0 [] refl refl))
        (publishes "data" (omega arith)))
      (takes_pub "data" [] refl refl)

hub_invariant_example :
    (served.panicked ≡ false)
    × (served.clients ≡ length served.subscribers)
    × ((c : ℕ) → length (served.buffers c) ≤ channel_capacity)
    × ((c : ℕ) → occurs c served.subscribers + occurs c served.closed ≤ 1)
hub_invariant_example = hub_invariant served serving

-- The message is there to be received.
delivered : served.buffers 0 ≡ "data" ∷ []
unfolding on_sub offer_all
delivered = refl
