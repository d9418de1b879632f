-- ===== src/HealthCheck/Comet/Changes.antt =====
-- The log of internal/healthcheck/comet.go.
use cosmos_operator.Common.{
  ℕ, List, [], ◌∷◌, ◌++◌, map, ◌∙◌, ◌≡◌, ◌≢◌, refl, ◌==◌, ==_iff, if◌then◌else◌, arith, Bool-cases,
  inl, inr,
}
use cosmos_operator.Cosmos.Collectors.{Fetched, fetched, unfetched}
use cosmos_operator.HealthCheck.Comet.{Comet, serve_http, serve_all}

-- No entry is the same as the one before it, from an entry that is there.
abbrev pub IsAlternating : ℕ → List ℕ → Type 0
IsAlternating n [] = Unit
IsAlternating n (m ∷ ms) = (n ≢ m) × IsAlternating m ms

abbrev pub last_or : ℕ → List ℕ → ℕ
last_or n [] = n
last_or n (m ∷ ms) = last_or m ms

-- The code that tells of an answer.
abbrev pub code_of : Fetched → ℕ
code_of (unfetched e) = 503
code_of (fetched status) = if status.catching_up then 422 else 200

serve_http_lem :
    (h : Comet) (a : Fetched)
    → ((serve_http h a).handler.last_status ≡ code_of a)
      × ((serve_http h a).writer.code ≡ code_of a)
      × ((serve_http h a).logged ≡ (if h.last_status == code_of a then [] else code_of a ∷ []))
unfolding serve_http
serve_http_lem h (unfetched e) = (refl, refl, refl)
serve_http_lem h (fetched status) = (refl, ground arith, refl)

last_or-entry :
    (n m : ℕ) (ms : List ℕ) → last_or n ((if n == m then [] else m ∷ []) ++ ms) ≡ last_or m ms
last_or-entry n m ms = ground (arith, ==_iff n m)

IsAlternating-entry :
    (n m : ℕ) (ms : List ℕ)
    → IsAlternating m ms
    → IsAlternating n ((if n == m then [] else m ∷ []) ++ ms)
IsAlternating-entry n m ms alt = elim (Bool-cases (n == m)) [
  | inl same ↦ rw (same, (==_iff n m).0 same) alt
  | inr other ↦ rw other ((λ e. ground (arith, ==_iff n m, e, other)), alt)
]

-- Over the requests of a run, each answered with the code that tells of the node's answer: the log
-- has no code twice in a row, the code before the run included, and at the end of the run its last
-- entry is the code of the last answer, which is what the handler keeps.
pub serve_all-IsAlternating :
    (h : Comet) (answers : List Fetched)
    → let out = serve_all h answers in
      (out.codes ≡ map code_of answers)
      × IsAlternating h.last_status out.logged
      × (last_or h.last_status out.logged ≡ out.handler.last_status)
      × (last_or h.last_status out.codes ≡ out.handler.last_status)
unfolding serve_all
serve_all-IsAlternating h [] = (refl, tt, refl, refl)
serve_all-IsAlternating h (a ∷ answers) =
    let s = serve_http h a in
    let f = serve_http_lem h a in
    let ih = serve_all-IsAlternating s.handler answers in
    (
      cc (f.1, ih.0),
      rw f.2 (
          IsAlternating-entry h.last_status (code_of a) (serve_all s.handler answers).logged
            (rw (← f.0) ih.1)),
      rw f.2 (
          last_or-entry h.last_status (code_of a) (serve_all s.handler answers).logged
          ∙ rw (← f.0) ih.2),
      rw f.1 (rw (← f.0) ih.3),
    )
