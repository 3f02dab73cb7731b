-- ===== src/Gossip/Cache.antt =====
-- Which messages src/gossip/gossip.rs forgets at a heartbeat.
use udp2p.Base.{
  ℕ, suc, ◌-◌, ◌≡◌, ◌≢◌, refl, sym, subst, ap, ◌∙◌, [], ◌∷◌, Option, none, some, Option-cases, Bool,
  Bool-cases, ok, >>=-eq-ok, ltb, inl, inr, if◌then◌else◌,
}
use udp2p.Base.Codec.{Codec}
use udp2p.Base.Dict.{
  Dict, get, remove, IsDistinct, get-cons_same, get-cons_ne, get-remove_same, get-remove_ne,
  IsDistinct-remove,
}
use udp2p.Node.Peer.{Text-discrete}
use udp2p.Protocol.{InnerKey, Message}
use udp2p.Routing.Linked.{LinkedMap}
use udp2p.Gossip.{
  GossipMessage, GossipConfig, GossipService, beat, intervals, gossip_again, forget, gossip_all,
  gossip,
}
use udp2p.Gossip.Spread.{publish_lem}
use udp2p.Gossip.Keeps.{gossip_again-IsSame, forget-IsSame}

abbrev Cache : Type 0
Cache = Dict InnerKey (Message × ℕ)

-- A message that has been in the cache for more than `history_len` heartbeats.
abbrev pub is_old : GossipConfig → ℕ → Message × ℕ → Bool
is_old config now entry = ltb (intervals config config.history_len) (now - entry.1)

-- What becomes of an entry of the cache at a heartbeat.
abbrev pub survivor : GossipConfig → ℕ → Option (Message × ℕ) → Option (Message × ℕ)
survivor config now none = none
survivor config now (some entry) = if is_old config now entry then none else some entry

-- What becomes of the entry `present` when the round comes to `copied`.
abbrev after : GossipConfig → ℕ → Option (Message × ℕ) → Option (Message × ℕ) → Option (Message × ℕ)
after config now none present = present
after config now (some entry) present = if is_old config now entry then none else present

after_self :
    (config : GossipConfig) (now : ℕ) (o : Option (Message × ℕ))
    → after config now o o ≡ survivor config now o
after_self config now none = refl
after_self config now (some entry) = refl

module _ (l : LinkedMap) (c : Codec GossipMessage) where
  cache-gossip_again :
      (draw : ℕ → ℕ) (now : ℕ) (message : Message) (expires : ℕ) (self self' : GossipService l)
      → gossip_again l c draw now message expires self ≡ ok self'
      → self'.cache ≡ self.cache
  unfolding gossip_again
  cache-gossip_again draw now message expires self self' e =
      elim (Bool-cases (ltb (now - expires) (intervals self.config self.config.history_gossip))) [
        | inl young ↦ elim (Option-cases (c.from_bytes message.msg)) [
          | inl unread ↦
              let made : ok self ≡ ok self' = rw (young, gossip_again, unread) at e in
              let same : self ≡ self' = cc made in sym (ap (λ (s : GossipService l). s.cache) same)
          | inr (said, read) ↦
              let (added, same, spread) =
                publish_lem l draw said.sender message self self'
                  (rw (young, gossip_again, read) at e) in
              ap (λ (s : GossipService l). s.cache) same
        ]
        | inr late ↦
            let made : ok self ≡ ok self' = rw late at e in
            let same : self ≡ self' = cc made in sym (ap (λ (s : GossipService l). s.cache) same)
      ]

  cache-forget :
      (now : ℕ) (key : InnerKey) (expires : ℕ) (self : GossipService l)
      → (forget l c now key expires self).cache ≡ (
          if ltb (intervals self.config self.config.history_len) (now - expires)
          then remove Text-discrete key self.cache
          else self.cache)
  unfolding forget
  cache-forget now key expires self =
      elim (Bool-cases (ltb (intervals self.config self.config.history_len) (now - expires))) [
        | inl old ↦ rw old refl
        | inr kept ↦ rw kept refl
      ]

  -- The cache with an entry's message forgotten, if the entry is old.
  abbrev without : GossipConfig → ℕ → InnerKey → Message × ℕ → Cache → Cache
  without config now key entry cache =
      if is_old config now entry then remove Text-discrete key cache else cache

  without-IsDistinct :
      (config : GossipConfig) (now : ℕ) (key : InnerKey) (entry : Message × ℕ) (cache : Cache)
      → IsDistinct Text-discrete cache
      → IsDistinct Text-discrete (without config now key entry cache)
  without-IsDistinct config now key entry cache v = elim (Bool-cases (is_old config now entry)) [
    | inl old ↦ rw old (IsDistinct-remove Text-discrete key cache v)
    | inr kept ↦ rw kept v
  ]

  get-without :
      (config : GossipConfig) (now : ℕ) (key : InnerKey) (entry : Message × ℕ) (cache : Cache)
      → IsDistinct Text-discrete cache
      → get Text-discrete key (without config now key entry cache)
        ≡ after config now (some entry) (get Text-discrete key cache)
  get-without config now key entry cache v = elim (Bool-cases (is_old config now entry)) [
    | inl old ↦ rw old (get-remove_same Text-discrete key cache v)
    | inr kept ↦ rw kept refl
  ]

  get-without_ne :
      (config : GossipConfig) (now : ℕ) (key other : InnerKey) (entry : Message × ℕ) (cache : Cache)
      → key ≢ other
      → get Text-discrete other (without config now key entry cache) ≡ get Text-discrete other cache
  get-without_ne config now key other entry cache h = elim (Bool-cases (is_old config now entry)) [
    | inl old ↦ rw old (get-remove_ne Text-discrete key other cache h)
    | inr kept ↦ rw kept refl
  ]

  cache-gossip_all :
      (draw : ℕ → ℕ → ℕ) (round now : ℕ) (config : GossipConfig) (copied : Cache)
      (self self' : GossipService l) (key : InnerKey)
      → self.config ≡ config
      → IsDistinct Text-discrete copied
      → IsDistinct Text-discrete self.cache
      → gossip_all l c draw round now copied self ≡ ok self'
      → get Text-discrete key self'.cache
        ≡ after config now (get Text-discrete key copied) (get Text-discrete key self.cache)
  unfolding gossip_all get
  cache-gossip_all draw round now config [] self self' key same v w e =
      let done : self ≡ self' = cc e in
      sym (ap (λ (s : GossipService l). get Text-discrete key s.cache) done)
  cache-gossip_all draw round now config ((k, entry) ∷ copied) self self' key same v w e =
      let (s, again, rest) =
        >>=-eq-ok (gossip_again l c (draw round) now entry.0 entry.1 self) _ e in
      let kept = gossip_again-IsSame l c (draw round) now entry.0 entry.1 self s again in
      let s' = forget l c now k entry.1 s in
      let config' : s.config ≡ config = kept.3 ∙ same in
      let cache' : s'.cache ≡ without config now k entry self.cache =
        cache-forget now k entry.1 s
        ∙ ap (λ g. without g now k entry s.cache) config'
        ∙ ap (without config now k entry)
            (cache-gossip_again (draw round) now entry.0 entry.1 self s again) in
      let next =
        cache-gossip_all draw (suc round) now config copied s' self' key
          ((forget-IsSame l c now k entry.1 s).3 ∙ config') v.1
          (subst (IsDistinct Text-discrete) (sym cache')
            (without-IsDistinct config now k entry self.cache w))
          rest
        ∙ ap (λ m. after config now (get Text-discrete key copied) (get Text-discrete key m))
            cache' in
      elim (Text-discrete k key) [
        | yes p ↦
            next
            ∙ ap
                (λ o.
                  after config now o
                    (get Text-discrete key (without config now k entry self.cache)))
                (subst (λ i. get Text-discrete i copied ≡ none) p v.0)
            ∙ subst
                (λ i.
                  get Text-discrete i (without config now k entry self.cache)
                  ≡ after config now (some entry) (get Text-discrete i self.cache))
                p (get-without config now k entry self.cache w)
            ∙ sym (
                ap (λ o. after config now o (get Text-discrete key self.cache))
                  (get-cons_same Text-discrete k key entry copied p))
        | no p ↦
            next
            ∙ ap (after config now (get Text-discrete key copied))
                (get-without_ne config now k key entry self.cache p)
            ∙ sym (
                ap (λ o. after config now o (get Text-discrete key self.cache))
                  (get-cons_ne Text-discrete k key entry copied p))
      ]

  -- Whether it is time for a heartbeat.
  abbrev pub is_due : ℕ → GossipService l → Bool
  is_due now self = ltb self.config.interval (now - self.heartbeat)

  -- Where `gossip` returns, a message is in the cache exactly if it was there, with the time that
  -- it had, and it is not time for a heartbeat or the message is not older than `history_len`
  -- heartbeats. The cache has each key once.
  pub cache-gossip :
      (draw : ℕ → ℕ → ℕ) (now later : ℕ) (self self' : GossipService l) (key : InnerKey)
      → IsDistinct Text-discrete self.cache
      → gossip l c draw now later self ≡ ok self'
      → get Text-discrete key self'.cache ≡ (
          if is_due later self
          then survivor self.config now (get Text-discrete key self.cache)
          else get Text-discrete key self.cache)
  unfolding gossip beat
  cache-gossip draw now later self self' key v e = elim (Bool-cases (is_due later self)) [
    | inl due ↦ rw due (
        cache-gossip_all draw 0 now self.config self.cache (record self { heartbeat = later }) self'
          key refl v v (rw due at e)
        ∙ after_self self.config now (get Text-discrete key self.cache))
    | inr early ↦
        let made : ok self ≡ ok self' = rw early at e in
        let same : self ≡ self' = cc made in
        rw early (sym (ap (λ (s : GossipService l). get Text-discrete key s.cache) same))
  ]
