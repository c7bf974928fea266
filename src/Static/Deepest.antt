-- ===== src/Static/Deepest.antt =====
-- The loop of matchStaticPath finds the last slash behind a static path.
use httpuv.Base.{
  ℕ, zero, suc, ◌+◌, ◌-◌, ◌≤◌, ◌<◌, ◌≡◌, refl, ◌∙◌, arith, true, false, Bytes, ltb, ◌==◌, get_or,
  drop, Option, none, some, Option-cases, Bool-cases, inl, inr, ◌⊎◌,
}
use httpuv.Static.Manager.{StaticPath, StaticPathManager, get}
use httpuv.Static.Match.{find_last_of, pre_slash, match_loop}

find_last_of-none :
    (c : ℕ) (s : Bytes) (p i : ℕ)
    → find_last_of c s p ≡ none
    → i ≤ p
    → (get_or s i 256 == c) ≡ false
unfolding find_last_of
find_last_of-none c s zero i e h = let z : i ≡ 0 = omega arith in rw z (ground arith)
find_last_of-none c s (suc p) i e h = elim (Bool-cases (i == suc p)) [
  | inl last ↦ let z : i ≡ suc p = ground arith in rw z (ground arith)
  | inr before ↦ find_last_of-none c s p i (ground arith) (ground arith)
]

find_last_of-some :
    (c : ℕ) (s : Bytes) (p i : ℕ)
    → find_last_of c s p ≡ some i
    → (i ≤ p)
      × ((get_or s i 256 == c) ≡ true)
      × ((j : ℕ) → i < j → j ≤ p → (get_or s j 256 == c) ≡ false)
unfolding find_last_of
find_last_of-some c s zero i e =
    let z : i ≡ 0 = ground arith in
    rw z (omega arith, ground arith, λ j lt le. absurd (omega arith))
find_last_of-some c s (suc p) i e = elim (Bool-cases (get_or s (suc p) 256 == c)) [
  | inl here ↦
      let z : i ≡ suc p = ground arith in rw z (omega arith, here, λ j lt le. absurd (omega arith))
  | inr further ↦
      let (le, at', after) = find_last_of-some c s p i (ground arith) in
      (
        omega arith,
        at',
        λ j lt le'. elim (Bool-cases (j == suc p)) [
          | inl last ↦ let z : j ≡ suc p = ground arith in rw z further
          | inr before ↦ after j lt (ground arith)
        ],
      )
]

before : (n : ℕ) → suc n - 1 ≡ n
before n = omega arith

module _ (m : StaticPathManager) (path : Bytes) where
  -- What a search among the slashes before the index `n` should find: the last of them whose
  -- prefix is a static path.
  abbrev pub IsDeepest : ℕ → Option (StaticPath × Bytes) → Type 0
  IsDeepest n none =
      (i : ℕ) → i < n → (get_or path i 256 == b'/') ≡ true → get m (pre_slash path i) ≡ none
  IsDeepest n (some (sp, post)) =
      (i : ℕ) × (i < n)
      × ((get_or path i 256 == b'/') ≡ true)
      × (get m (pre_slash path i) ≡ some sp)
      × (post ≡ drop (i + 1) path)
      × ((j : ℕ)
          → i < j
          → j < n
          → (get_or path j 256 == b'/') ≡ true
          → get m (pre_slash path j) ≡ none)

  abbrev pub Found : ℕ → ℕ → Bytes → Bytes → Type 0
  Found fuel n pre post =
      (r : Option (StaticPath × Bytes)) × (match_loop fuel m path pre post n ≡ some r)
      × IsDeepest n r

  IsDeepest-weaken :
      (n i : ℕ) (r : Option (StaticPath × Bytes))
      → i < n
      → get m (pre_slash path i) ≡ none
      → ((j : ℕ) → i < j → j < n → (get_or path j 256 == b'/') ≡ false)
      → IsDeepest i r
      → IsDeepest n r
  IsDeepest-weaken n i none lt absent clear deep = λ k k_lt at'. elim (Bool-cases (ltb k i)) [
    | inl before ↦ deep k (ground arith) at'
    | inr from ↦ elim (Bool-cases (k == i)) [
      | inl same ↦ let z : k ≡ i = ground arith in rw z absent
      | inr after ↦ absurd (ground (arith, clear k (ground arith) k_lt))
    ]
  ]
  IsDeepest-weaken n i (some (sp, post)) lt absent clear (k, k_lt, at', found, e, later) = (
    k,
    omega arith,
    at',
    found,
    e,
    λ j j_lt j_n slash. elim (Bool-cases (ltb j i)) [
      | inl before ↦ later j j_lt (ground arith) slash
      | inr from ↦ elim (Bool-cases (j == i)) [
        | inl same ↦ let z : j ≡ i = ground arith in rw z absent
        | inr after ↦ absurd (ground (arith, clear j (ground arith) j_n))
      ]
    ],
  )

  loop_step :
      (fuel n i : ℕ) (pre post : Bytes)
      → get m pre ≡ none
      → (n == 0) ≡ false
      → find_last_of b'/' path (n - 1) ≡ some i
      → match_loop (suc fuel) m path pre post n
        ≡ match_loop fuel m path (pre_slash path i) (drop (i + 1) path) i
  unfolding match_loop
  loop_step fuel n i pre post absent nz e = rw (absent, match_loop, nz, e)

  pub loop_hit :
      (fuel n : ℕ) (pre post : Bytes) (sp : StaticPath)
      → get m pre ≡ some sp
      → match_loop (suc fuel) m path pre post n ≡ some (some (sp, post))
  unfolding match_loop
  loop_hit fuel n pre post sp e = rw (e, match_loop)

  loop_end :
      (fuel n : ℕ) (pre post : Bytes)
      → get m pre ≡ none
      → (n == 0) ≡ true ⊎ find_last_of b'/' path (n - 1) ≡ none
      → match_loop (suc fuel) m path pre post n ≡ some none
  unfolding match_loop
  loop_end fuel n pre post e (inl z) = rw (e, match_loop, z)
  loop_end fuel n pre post e (inr none_left) = elim (Bool-cases (n == 0)) [
    | inl z ↦ rw (e, match_loop, z)
    | inr nz ↦ rw (e, match_loop, nz, none_left)
  ]

  pub match_loop-Found :
      (fuel n : ℕ) (pre post : Bytes) → n ≤ fuel → get m pre ≡ none → Found (suc fuel) n pre post
  match_loop-Found fuel zero pre post h absent =
      (none, loop_end fuel 0 pre post absent (inl refl), λ i lt. absurd (omega arith))
  match_loop-Found zero (suc n) pre post h absent = absurd (omega arith)
  match_loop-Found (suc fuel) (suc n) pre post h absent =
      elim (Option-cases (find_last_of b'/' path n)) [
        | inl no_slash ↦ (
          none,
          loop_end (suc fuel) (suc n) pre post absent (inr (rw (before n) no_slash)),
          λ i lt at'.
              absurd (ground (arith, find_last_of-none b'/' path n i no_slash (omega arith))),
        )
        | inr (i, e) ↦
            let (le, slash, clear) = find_last_of-some b'/' path n i e in
            let step =
              loop_step (suc fuel) (suc n) i pre post absent (ground arith) (rw (before n) e) in
            elim (Option-cases (get m (pre_slash path i))) [
              | inr (sp, found) ↦ (
                some (sp, drop (i + 1) path),
                step ∙ loop_hit fuel i (pre_slash path i) (drop (i + 1) path) sp found,
                (
                  i,
                  omega arith,
                  slash,
                  found,
                  refl,
                  λ j lt j_n at'. absurd (ground (arith, clear j lt (omega arith))),
                ),
              )
              | inl gone ↦
                  let (r, f, deep) =
                    match_loop-Found fuel i (pre_slash path i) (drop (i + 1) path) (omega arith)
                      gone in
                  (
                    r,
                    step ∙ f,
                    IsDeepest-weaken (suc n) i r (omega arith) gone
                        (λ j lt j_n. clear j lt (omega arith)) deep,
                  )
            ]
      ]
