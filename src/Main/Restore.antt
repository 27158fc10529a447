-- ===== src/Main/Restore.antt =====
-- What reconcileBans puts back into the firewall (cmd/logfort/main.go).
use mathlib.Core.Path.{subst}
use logfort.Prelude.{
  ℕ, zero, suc, ◌+◌, ◌≤◌, String, ◌≡◌, refl, sym, ap, ◌∙◌, inl, inr, Bool, true, false, ◌&&◌, ◌||◌,
  List, [], ◌∷◌, arith, ◌==◌, ltb, leb, Bool-cases, length, take, select, count_where, any_where,
  count_where-of_select, length-select,
}
use logfort.Prelude.Sort.{sort_by, count_where-sort_by, length-sort_by}
use logfort.Store.Rows.{BanRow, SqliteStore, fails}
use logfort.Store.Bans.{list_bans}
use logfort.Responder.Firewall.{Responder}
use logfort.Main.Sweep.{reapplied, reconcile_rows, reconcile_row, reconcile_bans}

any_where-count : (p : BanRow → Bool) (bs : List BanRow) → any_where p bs ≡ ltb 0 (count_where p bs)
any_where-count p [] = refl
any_where-count p (b ∷ bs) = ground (arith, any_where-count p bs)

count_where-le : (p : BanRow → Bool) (bs : List BanRow) → count_where p bs ≤ length bs
count_where-le p [] = omega arith
count_where-le p (b ∷ bs) = ground (arith, count_where-le p bs)

take-all : (n : ℕ) (bs : List BanRow) → length bs ≤ n → take n bs ≡ bs
take-all zero [] h = refl
take-all (suc n) [] h = refl
take-all zero (b ∷ bs) h = absurd (omega arith)
take-all (suc n) (b ∷ bs) h = ap (λ l. b ∷ l) (take-all n bs (omega arith))

swap_or : (a b c : Bool) → ((a || b) || c) ≡ (b || (a || c))
swap_or a b c = ground arith

-- A row of the address that is applied again.
abbrev pub put_back : {F : Type 0} → Responder F → ℕ → String → BanRow → Bool
put_back resp now j b = reapplied resp now b && b.ip == j

module _ {F : Type 0} (resp : Responder F) (now : ℕ) (holds : F → String → Bool)
    (bans : (ip : String) (f : F)
      → ((resp.ban ip f).0 ≡ true)
        × ((j : String) → holds (resp.ban ip f).1 j ≡ (ip == j || holds f j))) where
  row_applied :
      (b : BanRow) (n : ℕ) (f : F)
      → reapplied resp now b ≡ true
      → reconcile_row resp now b (n, f) ≡ (n + 1, (resp.ban b.ip f).1)
  unfolding reconcile_row
  row_applied b n f e = rw (e, (bans b.ip f).0) refl

  row_skipped :
      (b : BanRow) (n : ℕ) (f : F)
      → reapplied resp now b ≡ false
      → reconcile_row resp now b (n, f) ≡ (n, f)
  unfolding reconcile_row
  row_skipped b n f e = rw e refl

  Restored : List BanRow → ℕ → F → ℕ × F → Type 0
  Restored bs n f r =
      (r.0 ≡ n + count_where (reapplied resp now) bs)
      × ((j : String) → holds r.1 j ≡ (holds f j || any_where (put_back resp now j) bs))

  reconcile_rows_lem :
      (bs : List BanRow) (n : ℕ) (f : F) → Restored bs n f (reconcile_rows resp now bs (n, f))
  unfolding reconcile_rows Restored
  reconcile_rows_lem [] n f = (omega arith, λ j. ground arith)
  reconcile_rows_lem (b ∷ bs) n f = elim (Bool-cases (reapplied resp now b)) [
    | inl e ↦
        let more = (bans b.ip f).1 in
        let (count, held) = reconcile_rows_lem bs (n + 1) (resp.ban b.ip f).1 in
        subst (λ r. Restored (b ∷ bs) n f (reconcile_rows resp now bs r))
          (sym (row_applied b n f e))
          (
            rw e (omega arith),
            λ j. rw e (
                held j
                ∙ ap (λ x. x || any_where (put_back resp now j) bs) (more j)
                ∙ swap_or (b.ip == j) (holds f j) (any_where (put_back resp now j) bs)),
          )
    | inr e ↦
        let (count, held) = reconcile_rows_lem bs n f in
        subst (λ r. Restored (b ∷ bs) n f (reconcile_rows resp now bs r))
          (sym (row_skipped b n f e)) (rw e count, λ j. rw e (held j))
  ]

  abbrev later_first : BanRow → BanRow → Bool
  later_first a b = leb b.banned_at a.banned_at

  abbrev active_rows : SqliteStore → List BanRow
  active_rows st = sort_by later_first (select (λ b. b.active) st.bans)

  restored :
      (stop : ℕ) (st : SqliteStore) (f : F)
      → fails st.faults ≡ false
      → length st.bans ≤ stop
      → reconcile_bans resp now stop st f ≡ reconcile_rows resp now (active_rows st) (0, f)
  unfolding reconcile_bans list_bans
  restored stop st f q far =
      let n = count_where-le (λ (b : BanRow). b.active) st.bans in
      let m = length-sort_by later_first (select (λ b. b.active) st.bans) in
      let k = length-select (λ (b : BanRow). b.active) st.bans in
      rw (q, reconcile_bans)
        (ap (λ l. reconcile_rows resp now l (0, f)) (take-all stop (active_rows st) (omega arith)))

  -- Where no ban fails, every address can be banned, and the context is not cancelled before the last
  -- row: the firewall then blocks what it blocked, and the address of every active row of this
  -- backend that has not expired, and the count is that of these rows.
  pub reconcile_bans_lem :
      (stop : ℕ) (st : SqliteStore) (f : F)
      → fails st.faults ≡ false
      → length st.bans ≤ stop
      → let r = reconcile_bans resp now stop st f in
        (r.0 ≡ count_where (λ b. b.active && reapplied resp now b) st.bans)
        × ((j : String)
            → holds r.1 j
              ≡ (holds f j || any_where (λ b. b.active && put_back resp now j b) st.bans))
  unfolding Restored
  reconcile_bans_lem stop st f q far =
      let active = select (λ (b : BanRow). b.active) st.bans in
      let (count, held) = reconcile_rows_lem (active_rows st) 0 f in
      let m = count_where-sort_by (reapplied resp now) later_first active in
      let k = count_where-of_select (reapplied resp now) (λ b. b.active) st.bans in
      rw (restored stop st f q far) (
        omega arith,
        λ j.
            held j
            ∙ ap (λ x. holds f j || x)
                (any_where-count (put_back resp now j) (active_rows st)
                  ∙ ap (λ n. ltb 0 n)
                      (count_where-sort_by (put_back resp now j) later_first active
                        ∙ count_where-of_select (put_back resp now j) (λ b. b.active) st.bans)
                  ∙ sym (any_where-count (λ b. b.active && put_back resp now j b) st.bans)),
      )
