-- ===== src/Gossip/Keeps.antt =====
-- What the calls of src/gossip/gossip.rs leave as it was: the service's addresses, its settings and
-- its discovery service; and that the cache keeps each key once.
use udp2p.Base.{
  ℕ, suc, ◌-◌, ◌≡◌, refl, sym, subst, ◌∙◌, [], ◌∷◌, ◌++◌, Option, none, Option-cases, Bool-cases,
  List-cases, not, ok, >>=-eq-ok, ltb, decided, inl, inr,
}
use udp2p.Base.Codec.{Codec}
use udp2p.Base.Dict.{Dict, get, IsDistinct, IsDistinct-remove, or_insert-IsDistinct}
use udp2p.Node.Peer.{SocketAddr, SocketAddr-discrete, Text-discrete}
use udp2p.Protocol.{InnerKey, Message}
use udp2p.Routing.Linked.{LinkedMap}
use udp2p.Gossip.{
  GossipMessage, GossipService, beat, publish, store, handle_new, handle_message, recv, intervals,
  gossip_again, forget, gossip_all, gossip,
}
use udp2p.Gossip.Spread.{publish_lem}

module _ (l : LinkedMap) where
  -- One state has what the other has, but for the channels, the cache and the time, and a cache
  -- with each key once, if the other has one.
  abbrev pub IsSame : GossipService l → GossipService l → Type 0
  IsSame self self' =
      (self'.address ≡ self.address)
      × (self'.public_ip ≡ self.public_ip)
      × (self'.kad ≡ self.kad)
      × (self'.config ≡ self.config)
      × (IsDistinct Text-discrete self.cache → IsDistinct Text-discrete self'.cache)

  IsSame-trans : (a b c : GossipService l) → IsSame a b → IsSame b c → IsSame a c
  IsSame-trans a b c v w = (w.0 ∙ v.0, w.1 ∙ v.1, w.2 ∙ v.2, w.3 ∙ v.3, λ d. w.4 (v.4 d))

  IsSame-eq : (a b : GossipService l) → a ≡ b → IsSame a b
  IsSame-eq a b e = subst (IsSame a) e (refl, refl, refl, refl, λ d. d)

  pub publish-IsSame :
      (draw : ℕ → ℕ) (src : SocketAddr) (message : Message) (self self' : GossipService l)
      → publish l draw src message self ≡ ok self'
      → IsSame self self'
  publish-IsSame draw src message self self' e =
      let (added, same, spread) = publish_lem l draw src message self self' e in
      subst (IsSame self) (sym same) (refl, refl, refl, refl, λ d. d)

  module _ (c : Codec GossipMessage) where
    handle_new-IsSame :
        (draw : ℕ → ℕ) (now : ℕ) (src : SocketAddr) (message : GossipMessage) (msg : Message)
        (self : GossipService l) (result : GossipService l × Option GossipMessage)
        → handle_new l c draw now src message msg self ≡ ok result
        → IsSame self result.0
    unfolding handle_new store
    handle_new-IsSame draw now src message msg self result e =
        elim (Bool-cases (not (decided (SocketAddr-discrete src self.address)))) [
          | inl foreign ↦
              let told = record self { to_app_tx = self.to_app_tx ++ message ∷ [] } in
              let (self', sent, r) = >>=-eq-ok (publish l draw src msg told) _ (rw foreign at e) in
              let same : store l c now message msg self' ≡ result.0 = cc r in
              let kept = publish-IsSame draw src msg told self' sent in
              subst (IsSame self) same (
                kept.0,
                kept.1,
                kept.2,
                kept.3,
                λ d.
                    or_insert-IsDistinct Text-discrete message.id (msg, now) self'.cache (kept.4 d),
              )
          | inr own ↦
              let made : ok (store l c now message msg self, none) ≡ ok result = rw own at e in
              let same : store l c now message msg self ≡ result.0 = cc made in
              subst (IsSame self) same (
                refl,
                refl,
                refl,
                refl,
                or_insert-IsDistinct Text-discrete message.id (msg, now) self.cache,
              )
        ]

    handle_message-IsSame :
        (draw : ℕ → ℕ) (now : ℕ) (src : SocketAddr) (msg : Message) (self : GossipService l)
        (result : GossipService l × Option GossipMessage)
        → handle_message l c draw now src msg self ≡ ok result
        → IsSame self result.0
    unfolding handle_message
    handle_message-IsSame draw now src msg self result e =
        elim (Option-cases (c.from_bytes msg.msg)) [
          | inl unread ↦
              let made : ok (self, none) ≡ ok result = rw (unread, handle_message) at e in
              let same : self ≡ result.0 = cc made in IsSame-eq self result.0 same
          | inr (message, read) ↦ elim (Option-cases (get Text-discrete message.id self.cache)) [
            | inl fresh ↦
                handle_new-IsSame draw now src message msg self result
                  (rw (read, handle_message, fresh) at e)
            | inr (old, found) ↦
                let made : ok (self, none) ≡ ok result = rw (read, handle_message, found) at e in
                let same : self ≡ result.0 = cc made in IsSame-eq self result.0 same
          ]
        ]

    pub recv-IsSame :
        (draw : ℕ → ℕ) (now : ℕ) (self : GossipService l)
        (result : GossipService l × Option GossipMessage)
        → recv l c draw now self ≡ ok result
        → IsSame self result.0
    unfolding recv
    recv-IsSame draw now self result e = elim (List-cases self.to_gossip_rx) [
      | inl empty ↦
          let made : ok (self, none) ≡ ok result = rw (empty, recv) at e in
          let same : self ≡ result.0 = cc made in IsSame-eq self result.0 same
      | inr ((src, msg), rest, queue) ↦
          handle_message-IsSame draw now src msg (record self { to_gossip_rx = rest }) result
            (rw (queue, recv) at e)
    ]

    pub gossip_again-IsSame :
        (draw : ℕ → ℕ) (now : ℕ) (message : Message) (expires : ℕ) (self self' : GossipService l)
        → gossip_again l c draw now message expires self ≡ ok self'
        → IsSame self self'
    unfolding gossip_again
    gossip_again-IsSame draw now message expires self self' e =
        elim (Bool-cases (ltb (now - expires) (intervals self.config self.config.history_gossip))) [
          | inl young ↦ elim (Option-cases (c.from_bytes message.msg)) [
            | inl unread ↦
                let made : ok self ≡ ok self' = rw (young, gossip_again, unread) at e in
                IsSame-eq self self' (cc made)
            | inr (said, read) ↦
                publish-IsSame draw said.sender message self self'
                  (rw (young, gossip_again, read) at e)
          ]
          | inr late ↦
              let made : ok self ≡ ok self' = rw late at e in IsSame-eq self self' (cc made)
        ]

    pub forget-IsSame :
        (now : ℕ) (key : InnerKey) (expires : ℕ) (self : GossipService l)
        → IsSame self (forget l c now key expires self)
    unfolding forget
    forget-IsSame now key expires self =
        elim (Bool-cases (ltb (intervals self.config self.config.history_len) (now - expires))) [
          | inl old ↦
              rw old (refl, refl, refl, refl, IsDistinct-remove Text-discrete key self.cache)
          | inr kept ↦ rw kept (refl, refl, refl, refl, λ d. d)
        ]

    gossip_all-IsSame :
        (draw : ℕ → ℕ → ℕ) (round now : ℕ) (cache : Dict InnerKey (Message × ℕ))
        (self self' : GossipService l)
        → gossip_all l c draw round now cache self ≡ ok self'
        → IsSame self self'
    unfolding gossip_all
    gossip_all-IsSame draw round now [] self self' e =
        let same : self ≡ self' = cc e in IsSame-eq self self' same
    gossip_all-IsSame draw round now ((key, entry) ∷ cache) self self' e =
        let (s, again, rest) =
          >>=-eq-ok (gossip_again l c (draw round) now entry.0 entry.1 self) _ e in
        IsSame-trans self s self'
          (gossip_again-IsSame (draw round) now entry.0 entry.1 self s again)
          (IsSame-trans s (forget l c now key entry.1 s) self' (forget-IsSame now key entry.1 s)
            (gossip_all-IsSame draw (suc round) now cache _ self' rest))

    pub gossip-IsSame :
        (draw : ℕ → ℕ → ℕ) (now later : ℕ) (self self' : GossipService l)
        → gossip l c draw now later self ≡ ok self'
        → IsSame self self'
    unfolding gossip beat
    gossip-IsSame draw now later self self' e =
        elim (Bool-cases (ltb self.config.interval (later - self.heartbeat))) [
          | inl due ↦
              gossip_all-IsSame draw 0 now self.cache (record self { heartbeat = later }) self'
                (rw due at e)
          | inr early ↦
              let made : ok self ≡ ok self' = rw early at e in
              let same : self ≡ self' = cc made in IsSame-eq self self' same
        ]
