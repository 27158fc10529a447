-- ===== src/Api/HubLaws.antt =====
-- The hub of internal/api/hub.go never closes a channel twice and never sends on a closed one.
use logfort.Prelude.{
  ℕ, ◌+◌, ◌≤◌, String, ◌≡◌, refl, sym, ap, inl, inr, false, List, [], ◌∷◌, ◌++◌, arith, eqb,
  Bool-cases, length,
}
use mathlib.Core.Path.{subst}
use logfort.Api.Hub.{
  Hub, channel_capacity, new_hub, has, set_buffer, on_sub, on_unsub, offer_all, on_quit, Step,
  subscribes, unsubscribes, publishes, closes, receives, takes_sub, takes_unsub, takes_pub, stops,
  Steps, done, then_step,
}
use logfort.Api.HubChannels.{
  occurs, occurs-append, occurs-removed, has-of_occurs, occurs-of_has, occurs_self, close_all_lem,
  offer_all_lem,
}

-- A channel waits to be subscribed, is subscribed or is closed, and only one of these, once.
abbrev pub places : ℕ → Hub → ℕ
places c h = occurs c h.sub + occurs c h.subscribers + occurs c h.closed

pub record Good (h : Hub) : Type 0 where
  pub one_place : (c : ℕ) → places c h ≤ 1
  pub unmade : (c : ℕ) → h.channels ≤ c → places c h ≡ 0
  pub calm : h.panicked ≡ false
  pub counted : h.clients ≡ length h.subscribers
  pub bounded : (c : ℕ) → length (h.buffers c) ≤ channel_capacity

Good-subscribes :
    (h : Hub)
    → Good h
    → Good (record h { sub = h.sub ++ h.channels ∷ []; channels = h.channels + 1 })
Good-subscribes h g = record {
  one_place =
      λ c. ground (arith, g.one_place c, g.unmade c, occurs-append c h.sub (h.channels ∷ []));
  unmade = λ c k. ground (arith, g.unmade c, occurs-append c h.sub (h.channels ∷ []));
  calm = g.calm;
  counted = g.counted;
  bounded = g.bounded;
}

Good-receives :
    (h : Hub) (c : ℕ) (msg : String) (ms : List String)
    → h.buffers c ≡ msg ∷ ms
    → Good h
    → Good (record h { buffers = set_buffer c ms h.buffers })
Good-receives h c msg ms e g = record {
  one_place = g.one_place;
  unmade = g.unmade;
  calm = g.calm;
  counted = g.counted;
  bounded = λ d. elim (Bool-cases (eqb c d)) [
    | inl k ↦ rw k (omega (arith, ap length e, g.bounded c))
    | inr k ↦ rw k (g.bounded d)
  ];
}

Good-takes_sub :
    (h : Hub) (c : ℕ) (cs : List ℕ)
    → h.sub ≡ c ∷ cs
    → Good h
    → Good (on_sub c (record h { sub = cs }))
unfolding on_sub
Good-takes_sub h c cs e g =
    let counts : (x : ℕ) → occurs x h.sub ≡ occurs x (c ∷ cs) = λ x. ap (occurs x) e in
    let fresh : has c h.subscribers ≡ false =
      has-of_occurs c h.subscribers (omega (arith, counts c, occurs_self c cs, g.one_place c)) in
    rw fresh (record {
      one_place = λ x. ground (arith, counts x, g.one_place x);
      unmade = λ x k. ground (arith, counts x, g.unmade x k);
      calm = g.calm;
      counted = refl;
      bounded = g.bounded;
    })

Good-takes_unsub :
    (h : Hub) (c : ℕ) (cs : List ℕ) → Good h → Good (on_unsub c (record h { unsub = cs }))
unfolding on_unsub
Good-takes_unsub h c cs g = elim (Bool-cases (has c h.subscribers)) [
  | inl e ↦
      let unclosed : has c h.closed ≡ false =
        has-of_occurs c h.closed (omega (arith, occurs-of_has c h.subscribers e, g.one_place c)) in
      rw (e, unclosed)
        (record {
          one_place = λ x. ground (
            arith,
            g.one_place x,
            occurs-removed x c h.subscribers,
            occurs-of_has c h.subscribers e,
          );
          unmade = λ x k. ground (
            arith,
            g.unmade x k,
            occurs-removed x c h.subscribers,
            occurs-of_has c h.subscribers e,
          );
          calm = g.calm;
          counted = refl;
          bounded = g.bounded;
        })
  | inr e ↦ rw e (record {
    one_place = g.one_place;
    unmade = g.unmade;
    calm = g.calm;
    counted = refl;
    bounded = g.bounded;
  })
]

Good-takes_pub :
    (h : Hub) (msg : String) (ms : List String)
    → Good h
    → Good (offer_all msg h.subscribers (record h { pub_queue = ms }))
Good-takes_pub h msg ms g =
    let (bs, e, b) =
      offer_all_lem msg h.subscribers (record h { pub_queue = ms })
        (λ c k. omega (arith, g.one_place c)) g.bounded in
    subst Good (sym e) (record {
      one_place = g.one_place;
      unmade = g.unmade;
      calm = g.calm;
      counted = g.counted;
      bounded = b;
    })

Good-stops : (h : Hub) → Good h → Good (on_quit h)
unfolding on_quit
Good-stops h g =
    let (ds, e, f) = close_all_lem h.subscribers h (λ c. omega (arith, g.one_place c)) in
    subst (λ i. Good (record i { subscribers = []; clients = 0; running = false })) (sym e)
      (record {
        one_place = λ c. omega (arith, f c, g.one_place c);
        unmade = λ c k. omega (arith, f c, g.unmade c k);
        calm = g.calm;
        counted = refl;
        bounded = g.bounded;
      })

pub Good-Step : (h i : Hub) → Step h i → Good h → Good i
Good-Step h i (subscribes room) g = Good-subscribes h g
Good-Step h i (unsubscribes c room) g = record {
  one_place = g.one_place;
  unmade = g.unmade;
  calm = g.calm;
  counted = g.counted;
  bounded = g.bounded;
}
Good-Step h i (publishes msg room) g = record {
  one_place = g.one_place;
  unmade = g.unmade;
  calm = g.calm;
  counted = g.counted;
  bounded = g.bounded;
}
Good-Step h i closes g = record {
  one_place = g.one_place;
  unmade = g.unmade;
  calm = g.calm;
  counted = g.counted;
  bounded = g.bounded;
}
Good-Step h i (receives c msg ms e) g = Good-receives h c msg ms e g
Good-Step h i (takes_sub c cs r e) g = Good-takes_sub h c cs e g
Good-Step h i (takes_unsub c cs r e) g = Good-takes_unsub h c cs g
Good-Step h i (takes_pub msg ms r e) g = Good-takes_pub h msg ms g
Good-Step h i (stops r q) g = Good-stops h g

pub Good-Steps : (h i : Hub) → Steps h i → Good h → Good i
Good-Steps h i done g = g
Good-Steps h i (then_step {i = j} s t) g = Good-Step j i t (Good-Steps h j s g)

pub Good-new_hub : Good new_hub
Good-new_hub = record {
  one_place = λ c. omega arith;
  unmade = λ c k. refl;
  calm = refl;
  counted = refl;
  bounded = λ c. omega arith;
}

-- In every state that the hub can reach: no channel was closed twice or sent to after it was closed, the
-- count of clients is that of the subscribers, no buffer holds more than 32 messages, and no channel is
-- subscribed twice, or subscribed and closed.
pub hub_invariant :
    (h : Hub)
    → Steps new_hub h
    → (h.panicked ≡ false)
      × (h.clients ≡ length h.subscribers)
      × ((c : ℕ) → length (h.buffers c) ≤ channel_capacity)
      × ((c : ℕ) → occurs c h.subscribers + occurs c h.closed ≤ 1)
hub_invariant h s =
    let g = Good-Steps new_hub h s Good-new_hub in
    (g.calm, g.counted, g.bounded, λ c. omega (arith, g.one_place c))
