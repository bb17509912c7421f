-- ===== src/Broker/Table/Tests.antt =====
-- The promise of a broker to its subscribers, at concrete events.
use octopusmq_cpp.Base.{
  ◌≡◌, ◌∙◌, refl, sym, subst, inl, inr, none, some, [], ◌&&◌, ◌==◌, if◌then◌else◌, Bool-cases, Text,
  text_eq, text_eq_iff, arith,
}
use octopusmq_cpp.Scope.{matches_filter}
use octopusmq_cpp.Scope.Answers.{matches_filter-faults_iff}
use octopusmq_cpp.Scope.Tests.{home, home-ValidFilter, kitchen, kitchen-ValidTopic}
use octopusmq_cpp.Scope.Split.{split}
use octopusmq_cpp.Scope.Matching.{Overruns}
use octopusmq_cpp.Platform.{PublishOptions, Connection, Subscription}
use octopusmq_cpp.Platform.Reference.{reference}
use octopusmq_cpp.Message.{Message}
use octopusmq_cpp.Broker.Subscribing.Answered.{plain}
use octopusmq_cpp.Broker.Tests.{asked, broker, anywhere, after, subscribing}
use octopusmq_cpp.Broker.Table.Delivers.{
  DeliversV3, DeliversV5, DeliversInjected, AllReachable, subscriptions, publish-Promised,
}

not-Overruns : ¬ Overruns (split home) (split kitchen)
unfolding broker
not-Overruns o =
    let e : matches_filter home kitchen ≡ none =
      (matches_filter-faults_iff home kitchen home-ValidFilter kitchen-ValidTopic).1 o in
    cc e

abbrev told : Subscription
told = plain reference 3 (home, asked)

after-subscriptions :
    (c : Connection) (f : Text)
    → subscriptions reference anywhere 7 [] after subscribing c f
      ≡ (if c == 3 && text_eq f home then some told else none)
unfolding broker subscribing
after-subscriptions c f = refl

after-AllReachable :
    AllReachable anywhere kitchen (subscriptions reference anywhere 7 [] after subscribing)
after-AllReachable c f s h = elim (Bool-cases (c == 3 && text_eq f home)) [
  | inl e ↦ (
    subst (λ g. ¬ Overruns (split g) (split kitchen))
        (sym ((text_eq_iff f home).0 (ground (arith, e)))) not-Overruns,
    λ n. cc,
  )
  | inr e ↦ absurd (cc (sym (after-subscriptions c f) ∙ h, e))
]

-- Connection 3 has subscribed to `home/+/temp`.
publish-Promised_example :
    ((c : Connection) (opts : PublishOptions) (contents : Text)
      → DeliversV3 reference anywhere 7 [] after subscribing kitchen c opts contents)
    × ((c : Connection) (opts : PublishOptions) (contents props : Text)
        → DeliversV5 reference anywhere 7 [] after subscribing kitchen c opts contents props)
    × ((m : Message reference)
        → m.topic ≡ kitchen
        → DeliversInjected reference anywhere 7 [] after subscribing m)
publish-Promised_example =
    publish-Promised reference anywhere 7 [] after subscribing kitchen kitchen-ValidTopic
      after-AllReachable
