-- ===== src/Monitor/Replies/Once.antt =====
-- A probe is answered at most once, and not after it has been given up.
use plasma_network_health.Prelude.{
  ℕ, ◌+◌, ◌≤◌, ◌<◌, ◌≡◌, refl, ap, ◌⊎◌, inl, inr, true, false, List, [], ◌∷◌, ◌++◌, arith, add64,
  u32_mod, u64_mod, length, Bool-cases,
}
use plasma_network_health.Pinger.Endpoint.{Reply}
use plasma_network_health.Monitor.State.{InFlight, Prober, Monitor, Env}
use plasma_network_health.Monitor.Sampling.{apply_sample}
use plasma_network_health.Monitor.Probing.{tick_prober}
use plasma_network_health.Monitor.Probing.Frame.{waiting}
use plasma_network_health.Monitor.Probing.Window.{Ticked, tick_prober-Ticked}
use plasma_network_health.Monitor.Replies.{has_seq, erase_seq, accepts, answer}

-- The sequences ascend from above `low` and end at `last` or before.
abbrev pub Numbered : ℕ → List InFlight → ℕ → Type 0
Numbered low [] last = low ≤ last
Numbered low (f ∷ fs) last = (low < f.seq) × Numbered f.seq fs last

Numbered-lower :
    (low lower last : ℕ) (fs : List InFlight)
    → lower ≤ low
    → Numbered low fs last
    → Numbered lower fs last
Numbered-lower low lower last [] h n = omega arith
Numbered-lower low lower last (f ∷ fs) h n = (omega arith, n.1)

pub has_seq-below :
    (s low last : ℕ) (fs : List InFlight) → s ≤ low → Numbered low fs last → has_seq s fs ≡ false
unfolding has_seq
has_seq-below s low last [] h n = refl
has_seq-below s low last (f ∷ fs) h n = ground (arith, has_seq-below s f.seq last fs)

has_seq-erase :
    (s low last : ℕ) (fs : List InFlight)
    → Numbered low fs last
    → has_seq s (erase_seq s fs) ≡ false
unfolding has_seq erase_seq
has_seq-erase s low last [] n = refl
has_seq-erase s low last (f ∷ fs) n =
    ground (arith, has_seq-below f.seq f.seq last fs, has_seq-erase s f.seq last fs)

erase_seq-Numbered :
    (s low last : ℕ) (fs : List InFlight)
    → Numbered low fs last
    → Numbered low (erase_seq s fs) last
unfolding erase_seq
erase_seq-Numbered s low last [] n = n
erase_seq-Numbered s low last (f ∷ fs) n =
    ground (arith, erase_seq-Numbered s f.seq last fs n.1, Numbered-lower f.seq low last fs)

length-erase_seq :
    (s : ℕ) (fs : List InFlight) → has_seq s fs ≡ true → length fs ≡ length (erase_seq s fs) + 1
unfolding has_seq erase_seq
length-erase_seq s [] h = cc
length-erase_seq s (f ∷ fs) h = ground (arith, length-erase_seq s fs)

answer-accepted :
    (env : Env) (now : ℕ) (reply : Reply) (p : Prober) (m : Monitor)
    → accepts p reply ≡ true
    → ((answer env now reply p m).0.in_flight ≡ erase_seq reply.seq p.in_flight)
      × ((answer env now reply p m).0.sequence ≡ p.sequence)
      × ((answer env now reply p m).0.sent ≡ add64 p.sent 1)
      × ((answer env now reply p m).0.received ≡ add64 p.received 1)
unfolding answer apply_sample
answer-accepted env now reply p m h = ground arith

accepts-has_seq :
    (p : Prober) (reply : Reply) → accepts p reply ≡ true → has_seq reply.seq p.in_flight ≡ true
unfolding accepts
accepts-has_seq p reply h = ground arith

-- A reply that is not accepted changes nothing. An accepted one is one more sample and one more
-- reply in place of one outstanding probe, and the same sequence is not accepted again; the
-- sequences stay in order.
pub answer_once :
    (env : Env) (now : ℕ) (reply again : Reply) (p : Prober) (m : Monitor)
    → Numbered 0 p.in_flight p.sequence
    → p.sent + 1 < u64_mod
    → p.received ≤ p.sent
    → again.seq ≡ reply.seq
    → let q = (answer env now reply p m).0 in
      ((accepts p reply ≡ false) × (answer env now reply p m ≡ (p, m)))
      ⊎ ((accepts p reply ≡ true)
          × (q.sent + length q.in_flight ≡ p.sent + length p.in_flight)
          × (q.received ≡ p.received + 1)
          × (accepts q again ≡ false)
          × Numbered 0 q.in_flight q.sequence)
answer_once env now reply again p m n b l e = elim (Bool-cases (accepts p reply)) [
  | inl taken ↦
      let a = answer-accepted env now reply p m taken in
      let q = (answer env now reply p m).0 in
      let gone : has_seq again.seq q.in_flight ≡ false =
        rw (e, a.0) (has_seq-erase reply.seq 0 p.sequence p.in_flight n) in
      inr (
        taken,
        ground (
          arith,
          a,
          ap length a.0,
          length-erase_seq reply.seq p.in_flight (accepts-has_seq p reply taken),
        ),
        ground (arith, a),
        unfold accepts in ground (arith, gone),
        rw (a.0, a.1) (erase_seq-Numbered reply.seq 0 p.sequence p.in_flight n),
      )
  | inr refused ↦ inl (refused, unfold answer in ground arith)
]

pub waiting-Numbered :
    (now low last : ℕ) (fs : List InFlight)
    → Numbered low fs last
    → Numbered low (waiting now fs) last
unfolding waiting
waiting-Numbered now low last [] n = n
waiting-Numbered now low last (f ∷ fs) n =
    ground (
      arith,
      waiting-Numbered now f.seq last fs n.1,
      Numbered-lower f.seq low last (waiting now fs),
    )

Numbered-concat :
    (low last seq : ℕ) (fs : List InFlight) (g : InFlight)
    → Numbered low fs last
    → g.seq ≡ seq
    → last < seq
    → Numbered low (fs ++ g ∷ []) seq
Numbered-concat low last seq [] g n e h = (omega arith, omega arith)
Numbered-concat low last seq (f ∷ fs) g n e h = (n.0, Numbered-concat f.seq last seq fs g n.1 e h)

Numbered-raise :
    (low last next : ℕ) (fs : List InFlight)
    → last ≤ next
    → Numbered low fs last
    → Numbered low fs next
Numbered-raise low last next [] h n = omega arith
Numbered-raise low last next (f ∷ fs) h n = (n.0, Numbered-raise f.seq last next fs h n.1)

Ticked-Numbered :
    (now : ℕ) (p q : Prober)
    → Ticked now p q
    → Numbered 0 p.in_flight p.sequence
    → p.sequence + 1 < u32_mod
    → Numbered 0 q.in_flight q.sequence
Ticked-Numbered now p q t n b =
    let w = waiting-Numbered now 0 p.sequence p.in_flight n in
    elim t.outstanding [
      | inl e ↦ rw e (Numbered-raise 0 p.sequence q.sequence _ (ground (arith, t.sequence)) w)
      | inr (e, s, _) ↦
          rw e
            (Numbered-concat 0 p.sequence q.sequence _ _ w (ground (arith, s)) (ground (arith, s)))
    ]

-- A tick keeps the sequences in order, as long as the counter does not wrap.
pub tick_prober-Numbered :
    (env : Env) (now : ℕ) (p : Prober) (m : Monitor)
    → Numbered 0 p.in_flight p.sequence
    → p.sequence + 1 < u32_mod
    → let q = (tick_prober env now p m).0 in Numbered 0 q.in_flight q.sequence
tick_prober-Numbered env now p m = Ticked-Numbered now p _ (tick_prober-Ticked env now p m)
