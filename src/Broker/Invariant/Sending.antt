-- ===== src/Broker/Invariant/Sending.antt =====
-- src/threads/mqtt/broker.cpp: what the publish loops and the accept handler leave alone. They note
-- metadata and lines of the log, and post packets and messages; a property that both keep is kept.
use octopusmq_cpp.Base.{
  ℕ, inl, inr, Bool, true, false, ◌&&◌, Option, none, some, List, ◌==◌, Bool-cases, Option-cases,
  Text,
}
use octopusmq_cpp.Network.{Address, Version, v3, v5}
use octopusmq_cpp.Scope.{matches_filter}
use octopusmq_cpp.Platform.{Platform, PublishOptions, Connection, Subscription}
use octopusmq_cpp.Message.{Message}
use octopusmq_cpp.Broker.{
  Outcome, done, fault, Metadata, Packet, Broker, Entry, update, note, share,
}
use octopusmq_cpp.Broker.Delivery.{
  log_sent, pass_on, if_matches, deliver_v3, deliver_v5, deliver_injected, handle_publish_v3,
  handle_publish_v5, inject_publish,
}
use octopusmq_cpp.Broker.Handlers.{accept}
use octopusmq_cpp.Broker.Invariant.{After, >>=-After, each-After}

module _ (p : Platform) (peers : Connection → Option Address) (P : Broker p → Type 0)
    (noted : (b : Broker p) (c : Connection) (m : Metadata) (log : List Entry)
      → P b
      → P (record b { meta = update b.meta c (some m); log = log }))
    (posted : (b : Broker p) (sent : List (Connection × Packet p)) (queue : List (ℕ × Message p))
      → P b
      → P (record b { sent = sent; global_queue = queue })) where
  log_sent_keeps :
      (c : Connection) (contents : Text) (b : Broker p)
      → P b
      → After P (log_sent p peers c contents b)
  unfolding log_sent
  log_sent_keeps c contents b v = elim (Option-cases (peers c)) [
    | inl e ↦ rw (log_sent, e) v
    | inr (remote, e) ↦ rw (log_sent, e) (noted b c _ _ v)
  ]

  pass_on_keeps :
      (s : Subscription) (k : Packet p) (contents : Text) (b : Broker p)
      → P b
      → After P (pass_on p peers s k contents b)
  pass_on_keeps s k contents b v = log_sent_keeps s.con contents _ (posted b _ b.global_queue v)

  if_matches_keeps :
      (s : Subscription) (topic : Text) (b : Broker p) (body : Outcome (Broker p))
      → P b
      → After P body
      → After P (if_matches p peers s topic b body)
  if_matches_keeps s topic b body v h = go (matches_filter s.topic_filter topic)
    where
      go :
          (o : Option Bool)
          → After P (elim o [ none ↦ fault | some true ↦ body | some false ↦ done b ])
      go none = tt
      go (some true) = h
      go (some false) = v

  deliver_v3_keeps :
      (topic contents : Text) (opts : PublishOptions) (s : Subscription) (b : Broker p)
      → P b
      → After P (deliver_v3 p peers topic contents opts s b)
  unfolding deliver_v3
  deliver_v3_keeps topic contents opts s b v =
      if_matches_keeps s topic b _ v (pass_on_keeps s _ contents b v)

  deliver_v5_keeps :
      (sp : Connection) (topic contents : Text) (opts : PublishOptions) (props : p.Props)
      (s : Subscription) (b : Broker p)
      → P b
      → After P (deliver_v5 p peers sp topic contents opts props s b)
  unfolding deliver_v5
  deliver_v5_keeps sp topic contents opts props s b v =
      if_matches_keeps s topic b _ v (elim (Bool-cases (s.no_local && s.con == sp)) [
        | inl e ↦ rw e v
        | inr e ↦ rw e (pass_on_keeps s _ contents b v)
      ])

  deliver_injected_keeps :
      (m : Message p) (s : Subscription) (b : Broker p)
      → P b
      → After P (deliver_injected p peers m s b)
  unfolding deliver_injected
  deliver_injected_keeps m s b v =
      if_matches_keeps s m.topic b _ v (pass_on_keeps s _ m.payload b v)

  share_keeps :
      (topic contents : Text) (opts : PublishOptions) (n : Version) (props : p.Props) (b : Broker p)
      → P b
      → P (share p topic contents opts n props b)
  unfolding share
  share_keeps topic contents opts n props b v = posted b b.sent _ v

  pub publish_v3_keeps :
      (c : Connection) (opts : PublishOptions) (topic contents : Text) (b : Broker p)
      → P b
      → After P (handle_publish_v3 p peers c opts topic contents b)
  unfolding handle_publish_v3 note
  publish_v3_keeps c opts topic contents b v =
      >>=-After P _ _
        (each-After P _ (deliver_v3_keeps topic contents opts) (p.by_topic b.subs) _
          (noted b c _ _ v))
        (share_keeps topic contents opts v3 p.no_props)

  pub publish_v5_keeps :
      (c : Connection) (opts : PublishOptions) (topic contents : Text) (props : p.Props)
      (b : Broker p)
      → P b
      → After P (handle_publish_v5 p peers c opts topic contents props b)
  unfolding handle_publish_v5 note
  publish_v5_keeps c opts topic contents props b v =
      >>=-After P _ _
        (each-After P _ (deliver_v5_keeps c topic contents opts props) (p.by_topic b.subs) _
          (noted b c _ _ v))
        (share_keeps topic contents opts v5 props)

  pub inject_keeps : (m : Message p) (b : Broker p) → P b → After P (inject_publish p peers m b)
  unfolding inject_publish
  inject_keeps m b v = each-After P _ (deliver_injected_keeps m) (p.by_topic b.subs) b v

  pub accept_keeps : (c : Connection) (b : Broker p) → P b → After P (accept p peers c b)
  unfolding accept
  accept_keeps c b v = elim (Option-cases (peers c)) [
    | inl e ↦ rw (accept, e) v
    | inr (remote, e) ↦ rw (accept, e) (noted b c _ _ v)
  ]
