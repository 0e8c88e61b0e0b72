-- ===== src/Server/Dialects.antt =====
-- server/server.go: the dialect that ServerNegotiator.negotiate chooses, and makeResponse with it.
use smb_mem_lib.Prelude.{
  ℕ, ◌≤◌, ◌≡◌, ◌⊎◌, inl, inr, refl, sym, subst, Bool, true, false, ◌&&◌, List, [], ◌∷◌, All,
  All-mono, ltb, leb, ◌==◌, if◌then◌else◌, arith,
}
use smb_mem_lib.Server.Negotiation.{pick, choose_dialect}

abbrev pub Among : ℕ → List ℕ → Type 0
Among d [] = ⊥
Among d (x ∷ xs) = (x ≡ d) ⊎ Among d xs

-- A dialect that the choice looks at: above 0x2FF, and at most 0x311
abbrev pub eligible : ℕ → Bool
eligible x = ltb 0x2FF x && leb x 0x311

abbrev pub no_better : ℕ → ℕ → Bool
no_better d x = if eligible x then leb x d else true

-- The best of the eligible dialects
abbrev pub IsBest : ℕ → List ℕ → Type 0
IsBest d ds = Among d ds × (eligible d ≡ true) × All (λ x. no_better d x ≡ true) ds

-- The loop, from a dialect that it may already have
pick_lem :
    (best : ℕ) (ds : List ℕ)
    → 0x2FF ≤ best
    → (best ≤ pick best ds)
      × ((pick best ds ≡ best) ⊎ (Among (pick best ds) ds × (eligible (pick best ds) ≡ true)))
      × All (λ x. no_better (pick best ds) x ≡ true) ds
pick_lem best [] h = (omega arith, inl refl, tt)
pick_lem best (d ∷ ds) h =
    let next = if ltb best d && leb d 0x311 then d else best in
    let rest = pick_lem next ds (ground arith) in
    (
      ground (arith, rest.0),
      elim rest.1 [ inl same ↦ ground (arith, h, same) | inr found ↦ inr (inr found.0, found.1) ],
      (ground (arith, rest.0, h), rest.2),
    )

-- The dialect is the best that the client offers above 0x2FF and up to 0x311, and 0x210 when there is
-- none; 0x202 and 0x210, which are below 0x2FF, are never looked at.
pub choose_dialect_lem :
    (ds : List ℕ)
    → IsBest (choose_dialect ds) ds
      ⊎ ((choose_dialect ds ≡ 0x210) × All (λ x. eligible x ≡ false) ds)
unfolding choose_dialect
choose_dialect_lem ds =
    let all = pick_lem 0x2FF ds (omega arith) in
    elim all.1 [
      | inl same ↦ inr (
        ground (arith, same),
        All-mono (λ x. no_better (pick 0x2FF ds) x ≡ true) (λ x. eligible x ≡ false)
            (λ x h. ground (arith, h, same)) ds all.2,
      )
      | inr best ↦
          let kept : (if pick 0x2FF ds == 0x2FF then 0x210 else pick 0x2FF ds) ≡ pick 0x2FF ds =
            ground (arith, best.1) in
          inl (subst (λ d. IsBest d ds) (sym kept) (best.0, best.1, all.2))
    ]

among_all : (P : ℕ → Type 0) (d : ℕ) (ds : List ℕ) → Among d ds → All P ds → P d
among_all P d [] among all = elim among [ ]
among_all P d (x ∷ xs) (inl same) all = subst P same all.0
among_all P d (x ∷ xs) (inr among) all = among_all P d xs among all.1

-- There is only one best dialect, which is chosen.
pub choose_dialect-IsBest : (d : ℕ) (ds : List ℕ) → IsBest d ds → choose_dialect ds ≡ d
choose_dialect-IsBest d ds best = elim (choose_dialect_lem ds) [
  | inl chosen ↦
      let up = among_all (λ x. no_better d x ≡ true) (choose_dialect ds) ds chosen.0 best.2 in
      let down = among_all (λ x. no_better (choose_dialect ds) x ≡ true) d ds best.0 chosen.2 in
      ground (arith, chosen.1, best.1, up, down)
  | inr none_offered ↦
      let not_eligible = among_all (λ x. eligible x ≡ false) d ds best.0 none_offered.1 in
      ground (arith, not_eligible, best.1)
]
