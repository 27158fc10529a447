-- ===== src/Api/HubLeak.antt =====
-- An early unsubscription is lost in the hub of internal/api/hub.go: run may take it before the subscription.
use logfort.Prelude.{
  ℕ, suc, ◌≡◌, refl, sym, ap, ◌∙◌, inl, inr, true, false, not, List, [], ◌∷◌, ◌++◌, arith, eqb,
  Bool-cases, length, select,
}
use mathlib.Core.Path.{subst}
use logfort.Api.Hub.{
  Hub, new_hub, has, close_channel, on_sub, on_unsub, Step, subscribes, unsubscribes, publishes,
  closes, receives, takes_sub, takes_unsub, takes_pub, stops, Steps, done, then_step,
}
use logfort.Api.HubChannels.{occurs, offer_all_lem, has-of_occurs, occurs-of_has, occurs_self}
use logfort.Api.HubLaws.{Good, Good-Step, Good-Steps, Good-new_hub}

-- A step that neither unsubscribes the channel nor ends the hub.
abbrev pub Spares : {h i : Hub} → ℕ → Step h i → Type 0
Spares c (subscribes room) = Unit {0}
Spares c (unsubscribes d room) = eqb c d ≡ false
Spares c (publishes msg room) = Unit {0}
Spares c closes = Unit {0}
Spares c (receives d msg ms e) = Unit {0}
Spares c (takes_sub d cs r e) = Unit {0}
Spares c (takes_unsub d cs r e) = Unit {0}
Spares c (takes_pub msg ms r e) = Unit {0}
Spares c (stops r q) = ⊥

-- What may come when the channel is not unsubscribed again and the hub goes on.
pub data Later (c : ℕ) : Hub → Hub → Type 0 where
  now : {h : Hub} → Later c h h
  later : {h i j : Hub} → Later c h i → (s : Step i j) → Spares c s → Later c h j

-- Subscribed, and no unsubscription waits.
abbrev Held : ℕ → Hub → Type 0
Held c h = (has c h.subscribers ≡ true) × (has c h.unsub ≡ false)

has-append :
    (c d : ℕ) (cs : List ℕ) → eqb c d ≡ false → has c cs ≡ false → has c (cs ++ d ∷ []) ≡ false
has-append c d [] h k = rw h refl
has-append c d (x ∷ cs) h k = ground (arith, has-append c d cs h)

has-removed :
    (c d : ℕ) (cs : List ℕ)
    → eqb c d ≡ false
    → has c cs ≡ true
    → has c (select (λ x. not (eqb d x)) cs) ≡ true
has-removed c d [] h k = k
has-removed c d (x ∷ cs) h k = ground (arith, has-removed c d cs h)

Held-takes_sub :
    (c d : ℕ) (cs : List ℕ) (h : Hub) → Held c h → Held c (on_sub d (record h { sub = cs }))
unfolding on_sub
Held-takes_sub c d cs h (a, b) = elim (Bool-cases (has d h.subscribers)) [
  | inl e ↦ rw e (a, b)
  | inr e ↦ rw e (ground arith, b)
]

Held-takes_unsub :
    (c d : ℕ) (cs : List ℕ) (h : Hub)
    → h.unsub ≡ d ∷ cs
    → Good h
    → Held c h
    → Held c (on_unsub d (record h { unsub = cs }))
unfolding on_unsub close_channel
Held-takes_unsub c d cs h e g (a, b) =
    let none_waits : has c (d ∷ cs) ≡ false = ap (has c) (sym e) ∙ b in
    let other : eqb c d ≡ false = ground arith in
    let rest : has c cs ≡ false = ground arith in
    elim (Bool-cases (has d h.subscribers)) [
      | inl k ↦
          let unclosed : has d h.closed ≡ false =
            has-of_occurs d h.closed
              (omega (arith, occurs-of_has d h.subscribers k, g.one_place d)) in
          rw (k, unclosed) (has-removed c d h.subscribers other a, rest)
      | inr k ↦ rw k (a, rest)
    ]

Held-Step : (c : ℕ) (h i : Hub) (s : Step h i) → Spares c s → Good h → Held c h → Held c i
Held-Step c h i (subscribes room) p g l = l
Held-Step c h i (unsubscribes d room) p g (a, b) = (a, has-append c d h.unsub p b)
Held-Step c h i (publishes msg room) p g l = l
Held-Step c h i closes p g l = l
Held-Step c h i (receives d msg ms e) p g l = l
Held-Step c h i (takes_sub d cs r e) p g l = Held-takes_sub c d cs h l
Held-Step c h i (takes_unsub d cs r e) p g l = Held-takes_unsub c d cs h e g l
Held-Step c h i (takes_pub msg ms r e) p g l =
    let (bs, q, b) =
      offer_all_lem msg h.subscribers (record h { pub_queue = ms })
        (λ x k. omega (arith, g.one_place x)) g.bounded in
    subst (Held c) (sym q) l
Held-Step c h i (stops r q) p g l = absurd p

Held-later : (c : ℕ) (h i : Hub) → Later c h i → Good h → Held c h → Good i × Held c i
Held-later c h i now g l = (g, l)
Held-later c h i (later {i = j} ls s p) g l =
    let (g', l') = Held-later c h j ls g l in (Good-Step j i s g', Held-Step c j i s p g' l')

on_unsub-missed :
    (c : ℕ) (us : List ℕ) (h : Hub)
    → has c h.subscribers ≡ false
    → on_unsub c (record h { unsub = us }) ≡ record h { unsub = us; clients = length h.subscribers }
unfolding on_unsub
on_unsub-missed c us h e = rw (e, on_unsub) refl

on_sub-has : (c : ℕ) (h : Hub) → has c h.subscribers ≡ false → has c (on_sub c h).subscribers ≡ true
unfolding on_sub
on_sub-has c h e = let same : eqb c c ≡ true = ground arith in rw (e, same) refl

on_sub-unsub : (c : ℕ) (h : Hub) → has c (on_sub c h).unsub ≡ has c h.unsub
unfolding on_sub
on_sub-unsub c h = refl

-- run takes an unsubscription, and then a subscription, of the channel.
abbrev pub overtaken : Hub → ℕ → List ℕ → List ℕ → Hub
overtaken h c cs us = on_sub c (record (on_unsub c (record h { unsub = us })) { sub = cs })

-- Where the subscription of a channel and its only unsubscription both wait, each first in its queue: the hub
-- may take the unsubscription first, and then the channel is subscribed and stays so whatever comes
-- later, as long as the channel is not unsubscribed again and the hub does not end.
pub leaked :
    (h : Hub) (c : ℕ) (cs us : List ℕ)
    → Steps new_hub h
    → h.running ≡ true
    → h.sub ≡ c ∷ cs
    → h.unsub ≡ c ∷ us
    → has c us ≡ false
    → (j : Hub) → Later c (overtaken h c cs us) j
    → Steps h (overtaken h c cs us) × (has c j.subscribers ≡ true)
leaked h c cs us s r e f k j l =
    let g = Good-Steps new_hub h s Good-new_hub in
    let waits : occurs c h.sub ≡ suc (occurs c cs) = ap (occurs c) e ∙ occurs_self c cs in
    let fresh : has c h.subscribers ≡ false =
      has-of_occurs c h.subscribers (omega (arith, waits, g.one_place c)) in
    let missed : Hub = on_unsub c (record h { unsub = us }) in
    let same = on_unsub-missed c us h fresh in
    let absent : has c missed.subscribers ≡ false = ap (λ i. has c i.subscribers) same ∙ fresh in
    let first : Step h missed = takes_unsub c us r f in
    let second : Step missed (overtaken h c cs us) =
      takes_sub c cs (ap (λ i. i.running) same ∙ r) (ap (λ i. i.sub) same ∙ e) in
    let held : Held c (overtaken h c cs us) = (
      on_sub-has c (record missed { sub = cs }) absent,
      on_sub-unsub c (record missed { sub = cs }) ∙ ap (λ i. has c i.unsub) same ∙ k,
    ) in
    let g' = Good-Step missed (overtaken h c cs us) second (Good-Step h missed first g) in
    (then_step (then_step done first) second, (Held-later c (overtaken h c cs us) j l g' held).1.0)
