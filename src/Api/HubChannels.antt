-- ===== src/Api/HubChannels.antt =====
-- What the loops of internal/api/hub.go over all subscribers do to channels that are not closed.
use logfort.Prelude.{
  ℕ, suc, ◌+◌, ◌≤◌, String, ◌≡◌, refl, ap, ◌∙◌, inl, inr, true, false, not, List, [], ◌∷◌, ◌++◌,
  arith, ltb, eqb, if◌then◌else◌, ltb→lt, Bool-cases, length, length-append, select, count_where,
  count_where-of_any,
}
use logfort.Api.Hub.{
  Hub, channel_capacity, has, close_channel, set_buffer, offer, offer_all, close_all,
}

abbrev pub occurs : ℕ → List ℕ → ℕ
occurs c cs = count_where (eqb c) cs

pub occurs-append : (c : ℕ) (cs ds : List ℕ) → occurs c (cs ++ ds) ≡ occurs c cs + occurs c ds
occurs-append c [] ds = omega arith
occurs-append c (d ∷ cs) ds = ground (arith, occurs-append c cs ds)

pub occurs-removed :
    (c x : ℕ) (cs : List ℕ)
    → occurs c (select (λ d. not (eqb x d)) cs) ≡ (if eqb c x then 0 else occurs c cs)
occurs-removed c x [] = ground arith
occurs-removed c x (d ∷ cs) = ground (arith, occurs-removed c x cs)

pub has-of_occurs : (c : ℕ) (cs : List ℕ) → occurs c cs ≡ 0 → has c cs ≡ false
has-of_occurs c [] h = refl
has-of_occurs c (d ∷ cs) h = ground (arith, has-of_occurs c cs)

pub occurs-of_has : (c : ℕ) (cs : List ℕ) → has c cs ≡ true → 1 ≤ occurs c cs
occurs-of_has c cs h = count_where-of_any (eqb c) cs h

pub occurs_self : (c : ℕ) (cs : List ℕ) → occurs c (c ∷ cs) ≡ suc (occurs c cs)
occurs_self c cs = ground arith

close_channel-unclosed :
    (c : ℕ) (h : Hub)
    → has c h.closed ≡ false
    → close_channel c h ≡ record h { closed = c ∷ h.closed }
unfolding close_channel
close_channel-unclosed c h e = rw (e, close_channel) refl

offer-room :
    (msg : String) (c : ℕ) (h : Hub)
    → has c h.closed ≡ false
    → ltb (length (h.buffers c)) channel_capacity ≡ true
    → offer msg c h ≡ record h { buffers = set_buffer c (h.buffers c ++ msg ∷ []) h.buffers }
unfolding offer
offer-room msg c h e k = rw (e, k, offer) refl

offer-full :
    (msg : String) (c : ℕ) (h : Hub)
    → has c h.closed ≡ false
    → ltb (length (h.buffers c)) channel_capacity ≡ false
    → offer msg c h ≡ h
unfolding offer
offer-full msg c h e k = rw (e, k, offer) refl

set_buffer-bounded :
    (x : ℕ) (msg : String) (h : Hub)
    → ltb (length (h.buffers x)) channel_capacity ≡ true
    → ((c : ℕ) → length (h.buffers c) ≤ channel_capacity)
    → (c : ℕ) → length (set_buffer x (h.buffers x ++ msg ∷ []) h.buffers c) ≤ channel_capacity
set_buffer-bounded x msg h e b c = elim (Bool-cases (eqb x c)) [
  | inl k ↦
      rw k
        (omega (arith, length-append (h.buffers x) (msg ∷ []), ltb→lt (length (h.buffers x)) 32 e))
  | inr k ↦ rw k (b c)
]

-- Closing open channels, each once, closes just them.
pub close_all_lem :
    (cs : List ℕ) (h : Hub)
    → ((c : ℕ) → occurs c cs + occurs c h.closed ≤ 1)
    → (ds : List ℕ) × (close_all cs h ≡ record h { closed = ds })
      × ((c : ℕ) → occurs c ds ≡ occurs c cs + occurs c h.closed)
unfolding close_all close_channel
close_all_lem [] h k = (h.closed, refl, λ c. omega arith)
close_all_lem (x ∷ cs) h k =
    let unclosed : has x h.closed ≡ false =
      has-of_occurs x h.closed (omega (arith, k x, occurs_self x cs)) in
    let (ds, e, f) =
      close_all_lem cs (record h { closed = x ∷ h.closed }) (λ c. ground (arith, k c)) in
    (ds, ap (close_all cs) (close_channel-unclosed x h unclosed) ∙ e, λ c. ground (arith, f c))

-- Offering a message to open channels keeps the bound of each buffer, and changes nothing else.
pub offer_all_lem :
    (msg : String) (cs : List ℕ) (h : Hub)
    → ((c : ℕ) → 1 ≤ occurs c cs → occurs c h.closed ≡ 0)
    → ((c : ℕ) → length (h.buffers c) ≤ channel_capacity)
    → (bs : ℕ → List String) × (offer_all msg cs h ≡ record h { buffers = bs })
      × ((c : ℕ) → length (bs c) ≤ channel_capacity)
unfolding offer_all offer
offer_all_lem msg [] h k b = (h.buffers, refl, b)
offer_all_lem msg (x ∷ cs) h k b =
    let unclosed : has x h.closed ≡ false =
      has-of_occurs x h.closed (k x (omega (arith, occurs_self x cs))) in
    elim (Bool-cases (ltb (length (h.buffers x)) channel_capacity)) [
      | inl e ↦
          let h' : Hub = record h { buffers = set_buffer x (h.buffers x ++ msg ∷ []) h.buffers } in
          let (bs, q, f) =
            offer_all_lem msg cs h' (λ c l. k c (ground arith))
              (λ c. set_buffer-bounded x msg h e b c) in
          (bs, ap (offer_all msg cs) (offer-room msg x h unclosed e) ∙ q, f)
      | inr e ↦
          let (bs, q, f) = offer_all_lem msg cs h (λ c l. k c (ground arith)) b in
          (bs, ap (offer_all msg cs) (offer-full msg x h unclosed e) ∙ q, f)
    ]
