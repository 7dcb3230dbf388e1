-- ===== src/Installer/Fat12/Files/Chain.antt =====
-- How long the chain of a file's clusters is, and when reading one comes to an end.
use mathlib.Core.Logic.{◌↔◌}
use amethyst_os_old.Base.{
  ℕ, zero, suc, ◌≤◌, ◌<◌, ◌≡◌, ◌≢◌, refl, ap, sym, true, false, inl, inr, some, arith, ◌==◌, ltb,
  leb, ◌||◌, ◌+◌, ◌∙◌, none, List, [], ◌∷◌, length, All, Bool-cases, Option-cases,
}
use amethyst_os_old.Base.Distinct.{Distinct, length-Distinct}
use amethyst_os_old.Installer.Machine.{Machine}
use amethyst_os_old.Installer.Disk.{Disk, Fat12Info, Int13}
use amethyst_os_old.Installer.Fat12.{next_cluster}
use amethyst_os_old.Installer.Fat12.Files.{chain_length, load_cluster, read_entry}

module _ (info : Fat12Info) (m : Machine) (fats : ℕ) where
  -- The chain from a cluster comes to an end mark after so many clusters.
  pub data Chain : ℕ → ℕ → Type 0 where
    ends : (c : ℕ) → 0xff8 ≤ c → Chain c zero
    link : (c n : ℕ) → c < 0xff8 → Chain (next_cluster info m.memory fats c) n → Chain c (suc n)

  chain_length_complete :
      {c n : ℕ} → Chain c n → (fuel : ℕ) → n < fuel → chain_length fuel info m fats c ≡ some n
  unfolding chain_length
  chain_length_complete (ends c le) zero lt = absurd (omega arith)
  chain_length_complete (ends c le) (suc fuel) lt =
      let done : ltb c 0xff8 ≡ false = ground arith in rw (done, chain_length) refl
  chain_length_complete (link c n small rest) zero lt = absurd (omega arith)
  chain_length_complete (link c n small rest) (suc fuel) lt =
      let on : ltb c 0xff8 ≡ true = ground arith in
      rw (on, chain_length, chain_length_complete rest fuel (omega arith)) (ap some (omega arith))

  chain_length_sound :
      (fuel c n : ℕ) → chain_length fuel info m fats c ≡ some n → Chain c n × (n < fuel)
  unfolding chain_length
  chain_length_sound zero c n e = absurd (cc)
  chain_length_sound (suc fuel) c n e = elim (Bool-cases (ltb c 0xff8)) [
    | inl on ↦
        elim (Option-cases (chain_length fuel info m fats (next_cluster info m.memory fats c))) [
          | inl stuck ↦ absurd (ground arith)
          | inr (k, go) ↦
              let rest = chain_length_sound fuel (next_cluster info m.memory fats c) k go in
              let count : suc k ≡ n = ground arith in
              rw (sym count) (link c k (ground arith) rest.0, ground arith)
        ]
    | inr off ↦
        let count : zero ≡ n = ground arith in rw (sym count) (ends c (ground arith), ground arith)
  ]

  -- A cluster has one chain only.
  unique_length : {c n k : ℕ} → Chain c n → Chain c k → n ≡ k
  unique_length {c} {n} {k} h h' =
      let all = chain_length_complete h (n + k + 1) (omega arith) in
      let again = chain_length_complete h' (n + k + 1) (omega arith) in ground arith

  -- The clusters of a chain, without its end mark.
  clusters : {c n : ℕ} → Chain c n → List ℕ
  clusters (ends c le) = []
  clusters (link c n small rest) = c ∷ clusters rest

  length-clusters : {c n : ℕ} (h : Chain c n) → length (clusters h) ≡ n
  unfolding clusters
  length-clusters (ends c le) = refl
  length-clusters (link c n small rest) = omega (arith, length-clusters rest)

  clusters-below : {c n : ℕ} (h : Chain c n) → All (λ x. x < 0xff8) (clusters h)
  unfolding clusters
  clusters-below (ends c le) = tt
  clusters-below (link c n small rest) = (small, clusters-below rest)

  -- A cluster whose chain is longer is none of them.
  clusters-other :
      {c n : ℕ} (d k : ℕ) (h : Chain c n) → Chain d k → n < k → All (λ x. d ≢ x) (clusters h)
  unfolding clusters
  clusters-other d k (ends c le) h' lt = tt
  clusters-other d k (link c n small rest) h' lt = (
    λ e. absurd (let one = unique_length (link c n small rest) (rw e at h') in ground arith),
    clusters-other d k rest h' (omega arith),
  )

  clusters-Distinct : {c n : ℕ} (h : Chain c n) → Distinct (clusters h)
  unfolding clusters
  clusters-Distinct (ends c le) = tt
  clusters-Distinct (link c n small rest) =
      (clusters-other c (suc n) rest (link c n small rest) (omega arith), clusters-Distinct rest)

  -- No chain that ends passes a cluster twice, so it has at most 0xff8 clusters.
  Chain-short : {c n : ℕ} → Chain c n → n ≤ 0xff8
  Chain-short h =
      let few = length-Distinct 0xff8 (clusters h) (clusters-Distinct h) (clusters-below h) in
      omega (arith, few, length-clusters h)

  -- More rounds than 0xff9 change nothing.
  chain_length_stable :
      (fuel c : ℕ)
      → 0xff9 ≤ fuel
      → chain_length fuel info m fats c ≡ chain_length 0xff9 info m fats c
  chain_length_stable fuel c le = elim (Option-cases (chain_length fuel info m fats c)) [
    | inr (n, e) ↦
        let h = (chain_length_sound fuel c n e).0 in
        let short = Chain-short h in e ∙ sym (chain_length_complete h 0xff9 (omega arith))
    | inl stuck ↦ elim (Option-cases (chain_length 0xff9 info m fats c)) [
      | inl stuck' ↦ stuck ∙ sym stuck'
      | inr (n, e) ↦
          let (h, lt) = chain_length_sound 0xff9 c n e in
          let more = chain_length_complete h fuel (omega arith) in absurd (ground arith)
    ]
  ]

module _ (int13 : Int13) (buffer : ℕ) (disk : Disk) where
  -- From a cluster below 0xff8 and FATs that are not null, `read_entry` comes to an end within its fuel
  -- exactly when the chain from the cluster comes to an end mark in fewer links, and then it has
  -- loaded the first cluster into a block for as many clusters.
  pub read_entry_ends :
      (fuel fats start old : ℕ) (m : Machine) (r : ℕ × Machine)
      → fats ≢ 0
      → start < 0xff8
      → (read_entry int13 buffer disk fuel fats start old m ≡ some r) ↔ (
          (n : ℕ) × Chain disk.info m fats start n
          × (n < fuel)
          × (r ≡ load_cluster int13 buffer disk start n m))
  unfolding read_entry
  read_entry_ends fuel fats start old m r given small =
      let go : (fats == 0 || leb 0xff8 start) ≡ false = ground arith in
      rw (go, read_entry)
        (
          λ e. elim (Option-cases (chain_length fuel disk.info m fats start)) [
            | inl stuck ↦ absurd (ground arith)
            | inr (n, found) ↦
                let c = chain_length_sound disk.info m fats fuel start n found in
                (n, c.0, c.1, ground arith)
          ],
          λ (n, c, lt, e). rw (chain_length_complete disk.info m fats c fuel lt) (ap some (sym e)),
        )

  -- From a cluster below 0xff8 and FATs that are not null, `read_entry` gives with any fuel from 0xff9
  -- on what it gives with 0xff9 rounds, whatever the FATs hold; and with that fuel it gives no result
  -- exactly when the chain from the cluster never comes to an end mark.
  pub read_entry_decided :
      (fuel fats start old : ℕ) (m : Machine)
      → 0xff9 ≤ fuel
      → fats ≢ 0
      → start < 0xff8
      → (read_entry int13 buffer disk fuel fats start old m
          ≡ read_entry int13 buffer disk 0xff9 fats start old m)
        × ((read_entry int13 buffer disk fuel fats start old m ≡ none)
            ↔ ¬ ((n : ℕ) × Chain disk.info m fats start n))
  unfolding read_entry
  read_entry_decided fuel fats start old m le given small =
      let go : (fats == 0 || leb 0xff8 start) ≡ false = ground arith in
      (
        rw (go, read_entry, chain_length_stable disk.info m fats fuel start le) refl,
        (
          λ e (n, h).
              let short = Chain-short disk.info m fats h in
              let run =
                (read_entry_ends fuel fats start old m (load_cluster int13 buffer disk start n m)
                    given small).1
                  (n, h, omega arith, refl) in
              ground arith,
          λ never. elim (Option-cases (read_entry int13 buffer disk fuel fats start old m)) [
            | inl stuck ↦ stuck
            | inr (r, run) ↦
                let (n, h, _, _) = (read_entry_ends fuel fats start old m r given small).0 run in
                absurd (never (n, h))
          ],
        ),
      )
