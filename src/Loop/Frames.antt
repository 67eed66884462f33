-- ===== src/Loop/Frames.antt =====
-- Every handler of the event loop but the reload keeps the table of probers and who uses them.
use plasma_network_health.Prelude.{
  ℕ, ◌≡◌, refl, ap, ◌∙◌, inl, inr, true, false, not, ◌||◌, List, [], ◌∷◌, map, map-set_same, Option,
  some, Bytes, codes, leb, add64, Option-cases, get_elem?, set, if-cases,
}
use plasma_network_health.Pinger.Endpoint.{Reply, valid, SendResult, sent, unreachable, failed}
use plasma_network_health.Pinger.Socket.{ReceiveCalls, receive}
use plasma_network_health.Monitor.State.{InFlight, Prober, Monitor, Env, k_send_slack_us}
use plasma_network_health.Monitor.Sampling.{apply_sample}
use plasma_network_health.Monitor.Probing.{
  socket_for, after_send, send_probe, expire, ask_resolver, reschedule, is_due, send_if_due,
  tick_prober, tick_probers, tick,
}
use plasma_network_health.Monitor.Replies.{
  find_uid, accepts, answer, handle_reply, handle_each, handle_replies,
}
use plasma_network_health.Loop.Table.{
  Identity, identity, SameTable, SameTable-self, SameTable-trans, Framed, Framed-trans,
  apply_sample-Framed,
}

after_send-Framed :
    (env : Env) (now : ℕ) (p : Prober) (m : Monitor) (r : SendResult × Option Bytes)
    → Framed p m (after_send env now p m r)
unfolding after_send
after_send-Framed env now p m (sent, why) = (refl, SameTable-self m, refl)
after_send-Framed env now p m (unreachable, why) = apply_sample-Framed env _ false 0 m
after_send-Framed env now p m (failed, why) = apply_sample-Framed env _ false 0 m

send_probe-Framed :
    (env : Env) (p : Prober) (now : ℕ) (m : Monitor) → Framed p m (send_probe env p now m)
unfolding send_probe
send_probe-Framed env p now m =
    if-cases (Framed p m) (not (valid p.endpoint) || not (socket_for p.endpoint m).is_open) _ _
      (λ h. apply_sample-Framed env _ false 0 m) (λ h. after_send-Framed env now _ m _)

expire-Framed :
    (env : Env) (now : ℕ) (fs : List InFlight) (p : Prober) (m : Monitor)
    → Framed p m (expire env now fs p m)
unfolding expire
expire-Framed env now [] p m = (refl, SameTable-self m, refl)
expire-Framed env now (f ∷ rest) p m =
    let lost =
      apply_sample env (record p { in_flight = rest; last_error = codes "timeout" }) false 0 m in
    if-cases (Framed p m) (leb f.deadline_us (add64 now k_send_slack_us)) _ _
      (λ h.
        Framed-trans p m lost (expire env now rest lost.0 lost.1)
          (apply_sample-Framed env _ false 0 m) (expire-Framed env now rest lost.0 lost.1))
      (λ h. (refl, SameTable-self m, refl))

ask_resolver-Framed : (now : ℕ) (p : Prober) (m : Monitor) → Framed p m (ask_resolver now p m)
unfolding ask_resolver
ask_resolver-Framed now p m =
    if-cases (Framed p m) _ _ _
      (λ h. (
        refl,
        record { options = refl; probers = refl; by_uid = refl; next_uid = refl; clients = refl },
        refl,
      ))
      (λ h. (refl, SameTable-self m, refl))

send_if_due-Framed :
    (env : Env) (now : ℕ) (p : Prober) (m : Monitor) → Framed p m (send_if_due env now p m)
unfolding send_if_due reschedule
send_if_due-Framed env now p m =
    if-cases (Framed p m) (is_due now p) _ _ (λ h. send_probe-Framed env p now m)
      (λ h. (refl, SameTable-self m, refl))

tick_prober-Framed :
    (env : Env) (now : ℕ) (p : Prober) (m : Monitor) → Framed p m (tick_prober env now p m)
unfolding tick_prober
tick_prober-Framed env now p m =
    let gone = expire env now p.in_flight p m in
    let asked = ask_resolver now gone.0 gone.1 in
    let first =
      Framed-trans p m gone asked (expire-Framed env now p.in_flight p m)
        (ask_resolver-Framed now gone.0 gone.1) in
    Framed-trans p m asked (send_if_due env now asked.0 asked.1) first
      (send_if_due-Framed env now asked.0 asked.1)

tick_probers-Framed :
    (env : Env) (now : ℕ) (ps : List Prober) (m : Monitor)
    → (map identity (tick_probers env now ps m).0 ≡ map identity ps)
      × SameTable m (tick_probers env now ps m).1
unfolding tick_probers
tick_probers-Framed env now [] m = (refl, SameTable-self m)
tick_probers-Framed env now (p ∷ ps) m =
    let one = tick_prober-Framed env now p m in
    let r = tick_prober env now p m in
    let rest = tick_probers-Framed env now ps r.1 in
    (
      ap (λ (i : Identity). i ∷ map identity (tick_probers env now ps r.1).0) one.0
          ∙ ap (λ (is : List Identity). identity p ∷ is) rest.0,
      SameTable-trans m r.1 (tick_probers env now ps r.1).1 one.1 rest.1,
    )

pub tick-SameTable : (env : Env) (now : ℕ) (m : Monitor) → SameTable m (tick env now m)
unfolding tick
tick-SameTable env now m =
    let all = tick_probers-Framed env now m.probers m in
    record {
      options = all.1.options;
      probers = all.0;
      by_uid = all.1.by_uid;
      next_uid = all.1.next_uid;
      clients = all.1.clients;
    }

-- The prober at a place after it has had a reply or an answer of the resolver.
set-SameTable :
    (m n : Monitor) (i : ℕ) (p q : Prober)
    → get_elem? m.probers i ≡ some p
    → identity q ≡ identity p
    → SameTable m n
    → n.probers ≡ m.probers
    → SameTable m (record n { probers = set n.probers i q })
set-SameTable m n i p q h e same kept = record {
  options = same.options;
  probers = rw kept (map-set_same identity m.probers i q h e);
  by_uid = same.by_uid;
  next_uid = same.next_uid;
  clients = same.clients;
}

answer-Framed :
    (env : Env) (now : ℕ) (reply : Reply) (p : Prober) (m : Monitor)
    → Framed p m (answer env now reply p m)
unfolding answer
answer-Framed env now reply p m =
    if-cases (Framed p m) (accepts p reply) _ _ (λ h. apply_sample-Framed env _ true _ m)
      (λ h. (refl, SameTable-self m, refl))

handle_reply-SameTable :
    (env : Env) (now : ℕ) (reply : Reply) (m : Monitor) → SameTable m (handle_reply env now reply m)
unfolding handle_reply
handle_reply-SameTable env now reply m = elim (Option-cases (find_uid reply.uid m.prober_by_uid)) [
  | inl missing ↦ rw missing (SameTable-self m)
  | inr (i, found) ↦ elim (Option-cases (get_elem? m.probers i)) [
    | inl absent ↦ rw found (rw absent (SameTable-self m))
    | inr (p, present) ↦
        let r = answer env now reply p m in
        let step = answer-Framed env now reply p m in
        rw found (rw present (set-SameTable m r.1 i p r.0 present step.0 step.1 step.2))
  ]
]

handle_each-SameTable :
    (env : Env) (now : ℕ) (replies : List Reply) (m : Monitor)
    → SameTable m (handle_each env now replies m)
unfolding handle_each
handle_each-SameTable env now [] m = SameTable-self m
handle_each-SameTable env now (r ∷ rs) m =
    SameTable-trans m (handle_reply env now r m) (handle_each env now rs (handle_reply env now r m))
      (handle_reply-SameTable env now r m)
      (handle_each-SameTable env now rs (handle_reply env now r m))

pub handle_replies-SameTable :
    (env : Env) (now : ℕ) (calls4 calls6 : ReceiveCalls) (m : Monitor)
    → SameTable m (handle_replies env now calls4 calls6 m)
unfolding handle_replies
handle_replies-SameTable env now calls4 calls6 m =
    handle_each-SameTable env now
      (receive m.socket6 m.cookie calls6 (receive m.socket4 m.cookie calls4 [])) m
