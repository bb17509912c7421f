-- ===== src/Broker/Forwarding/Overrun.antt =====
-- src/threads/mqtt/broker.cpp with `compare_topics` of src/network/message.cpp: deliveries on a
-- topic that a filter ends before.
use octopusmq_cpp.Base.{◌≡◌, sym, subst, ◌≢◌, inl, inr, Option, none, List, [], ◌∷◌, Text}
use octopusmq_cpp.Network.{Address}
use octopusmq_cpp.Scope.{matches_filter}
use octopusmq_cpp.Scope.Split.{split}
use octopusmq_cpp.Scope.Filters.{ValidFilter, ValidTopic}
use octopusmq_cpp.Scope.Matching.{Overruns}
use octopusmq_cpp.Scope.Answers.{matches_filter-faults_iff}
use octopusmq_cpp.Scope.Includes.{Any}
use octopusmq_cpp.Platform.{Platform, PublishOptions, Connection, Subscription}
use octopusmq_cpp.Message.{Message}
use octopusmq_cpp.Broker.{Outcome, done, fault, >>=-eq-done, each, Broker, note}
use octopusmq_cpp.Broker.Delivery.{
  if_matches, deliver_v3, deliver_v5, deliver_injected, handle_publish_v3, handle_publish_v5,
  inject_publish,
}

module _ (p : Platform) (peers : Connection → Option Address) where
  -- A loop that faults at an element does not end.
  each-stuck :
      (f : Subscription → Broker p → Outcome (Broker p)) (bad : Subscription → Type 0)
      → ((s : Subscription) (b : Broker p) → bad s → f s b ≡ fault)
      → (ss : List Subscription) (b b' : Broker p) → Any bad ss
      → each f ss b ≢ done b'
  unfolding each
  each-stuck f bad stop [] b b' a e = absurd a
  each-stuck f bad stop (s ∷ ss) b b' (inl now) e =
      let (c, stepped, _) = >>=-eq-done (f s b) (each f ss) e in let stuck = stop s b now in cc
  each-stuck f bad stop (s ∷ ss) b b' (inr later) e =
      let (c, _, rest) = >>=-eq-done (f s b) (each f ss) e in
      each-stuck f bad stop ss c b' later rest

  if_matches_fault :
      (s : Subscription) (topic : Text) (b : Broker p) (body : Outcome (Broker p))
      → matches_filter s.topic_filter topic ≡ none
      → if_matches p peers s topic b body ≡ fault
  if_matches_fault s topic b body e = rw (if_matches, e)

  -- A subscription whose valid filter is matched up by a proper beginning of the topic.
  abbrev pub IsOverrun : Text → Subscription → Type 0
  IsOverrun topic s = ValidFilter s.topic_filter × Overruns (split s.topic_filter) (split topic)

  overrun-faults :
      (topic : Text) (s : Subscription)
      → ValidTopic topic
      → IsOverrun topic s
      → matches_filter s.topic_filter topic ≡ none
  overrun-faults topic s w o = (matches_filter-faults_iff s.topic_filter topic o.0 w).1 o.1

  -- If some subscription has a filter whose levels match only a proper beginning of the topic's,
  -- such as `a` for the topic `a/b`, then neither a publish of either version nor an injected
  -- message ends properly on that topic.
  pub publish_overrun :
      (topic : Text) (b b' : Broker p)
      → ValidTopic topic
      → Any (IsOverrun topic) (p.by_topic b.subs)
      → ((c : Connection) (opts : PublishOptions) (contents : Text)
          → handle_publish_v3 p peers c opts topic contents b ≢ done b')
        × ((c : Connection) (opts : PublishOptions) (contents : Text) (props : p.Props)
            → handle_publish_v5 p peers c opts topic contents props b ≢ done b')
        × ((m : Message p) → m.topic ≡ topic → inject_publish p peers m b ≢ done b')
  unfolding handle_publish_v3 handle_publish_v5 inject_publish deliver_v3 deliver_v5
      deliver_injected note
  publish_overrun topic b b' w bad = (
    λ c opts contents e.
        let (d, ended, _) = >>=-eq-done _ _ e in
        each-stuck _ (IsOverrun topic)
          (λ s x o. if_matches_fault s topic x _ (overrun-faults topic s w o)) (p.by_topic b.subs) _
          d bad ended,
    λ c opts contents props e.
        let (d, ended, _) = >>=-eq-done _ _ e in
        each-stuck _ (IsOverrun topic)
          (λ s x o. if_matches_fault s topic x _ (overrun-faults topic s w o)) (p.by_topic b.subs) _
          d bad ended,
    λ m same e.
        each-stuck _ (IsOverrun topic)
          (λ s x o. if_matches_fault s m.topic x _ (
            subst (λ t. matches_filter s.topic_filter t ≡ none) (sym same)
              (overrun-faults topic s w o)))
          (p.by_topic b.subs) b b' bad e,
  )
