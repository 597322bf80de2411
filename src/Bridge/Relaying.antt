-- ===== src/Bridge/Relaying.antt =====
-- The messages of a connection, from the server to the plugin.
use network_ultra_server.Prelude.{
  ℕ, ◌≡◌, refl, ap, ◌⊎◌, inl, inr, String, Bool, true, false, not, ◌&&◌, List, [], ◌∷◌, ◌++◌, some,
  arith, Bool-cases, Option-cases, All, Option, none, ==_iff, bytes_eq, string_eq,
}
use network_ultra_server.Prelude.Maps.{Map, lookup, has, absent_of_has}
use network_ultra_server.Bridge.Welcome.{
  Value, Member, Document, Libraries, Rewriter, session_of, rewrite_data, advertise,
  is_welcome_type, as_object, rewrite, Relay, relay_with_rewrite,
}
use network_ultra_server.Bridge.Rewriting.{IsSettled, advertise-IsSettled, falls_back}

abbrev pub payloads : List (Bool × List ℕ) → List (List ℕ)
payloads [] = []
payloads ((_, payload) ∷ rest) = payload ∷ payloads rest

module _ (lib : Libraries) where
  rewrite_data-IsSettled :
      (r : Rewriter) (payload : List ℕ) (env : Document) (members : Map String Value)
      → IsSettled lib env members r payload (rewrite_data lib r env members payload)
  unfolding rewrite_data
  rewrite_data-IsSettled r payload env members =
      elim (Bool-cases (not (has "udpEndpoint" members) && not (has "udpToken" members))) [
        | inl plain ↦
            rw (plain, rewrite_data)
              (
                refl,
                inl (
                  (
                    absent_of_has "udpEndpoint" members (ground arith),
                    absent_of_has "udpToken" members (ground arith),
                  ),
                  refl,
                  refl,
                ),
              )
        | inr some_udp ↦ elim (Option-cases (session_of lib members)) [
          | inl incomplete ↦
              rw (some_udp, rewrite_data, incomplete)
                (refl, inr (inl (refl, falls_back lib env members payload)))
          | inr ((ep, peer, token), complete) ↦
              rw (some_udp, rewrite_data, complete)
                (advertise-IsSettled lib env members r payload ep peer token complete)
        ]
      ]

  -- A welcome with a data object comes out in one of three ways: as it came, if its data names
  -- neither a UDP endpoint nor a token; without both, everything else kept, and the rewriter as it
  -- was (or as it came, if it cannot be encoded); or with the endpoint alone replaced by the
  -- address of a proxy that was opened, whose peer is the one that the data names and whose token
  -- is the 32 bytes that the data's token decodes to.
  pub rewrite-IsSettled :
      (r : Rewriter) (payload : List ℕ) (env : Document) (members : Map String Value)
      → lib.unmarshal payload ≡ some env
      → lookup "type" env ≡ some (Member.string "welcome")
      → lookup "data" env ≡ some (Member.object members)
      → IsSettled lib env members r payload (rewrite lib r payload)
  unfolding rewrite
  rewrite-IsSettled r payload env members read typ data_at =
      rw (read, rewrite, typ, data_at) (rewrite_data-IsSettled r payload env members)

  -- What goes down for a sequence of messages, and the state after it.
  unfoldable pub relay_messages : Relay → List (Bool × List ℕ) → Relay × List (List ℕ)
  relay_messages s [] = (s, [])
  relay_messages s ((is_text, payload) ∷ rest) =
      let (s1, out) = relay_with_rewrite lib s is_text payload in
      let (s2, outs) = relay_messages s1 rest in (s2, out ∷ outs)

  -- A text message that decodes to a document whose type is the text "welcome".
  abbrev pub IsWelcome : Bool × List ℕ → Type 0
  IsWelcome (is_text, payload) =
      (is_text ≡ true)
      × ((env : Document) × (lib.unmarshal payload ≡ some env)
          × (lookup "type" env ≡ some (Member.string "welcome")))

  welcome_type :
      (m : Option Member) → is_welcome_type lib m ≡ true → m ≡ some (Member.string "welcome")
  welcome_type (some (Member.string t)) h = ground (arith, ==_iff t "welcome")
  welcome_type (some (Member.object o)) h = absurd (ground arith)
  welcome_type (some (Member.other_member n)) h = absurd (ground arith)
  welcome_type none h = absurd (ground arith)

  data_handled :
      (r : Rewriter) (payload : List ℕ) (env : Document) (members : Map String Value)
      → (rewrite_data lib r env members payload).1.handled ≡ true
  unfolding rewrite_data advertise
  data_handled r payload env members = ground arith

  handled_welcome :
      (r : Rewriter) (payload : List ℕ)
      → (rewrite lib r payload).1.handled ≡ true
      → (env : Document) × (lib.unmarshal payload ≡ some env)
        × (lookup "type" env ≡ some (Member.string "welcome"))
  unfolding rewrite
  handled_welcome r payload h = elim (Option-cases (lib.unmarshal payload)) [
    | inl bad ↦ absurd (ground arith)
    | inr (env, read) ↦ (env, read, welcome_type (lookup "type" env) (ground arith))
  ]

  welcome_handled :
      (r : Rewriter) (payload : List ℕ) (env : Document)
      → lib.unmarshal payload ≡ some env
      → lookup "type" env ≡ some (Member.string "welcome")
      → (rewrite lib r payload).1.handled ≡ true
  unfolding rewrite
  welcome_handled r payload env read typ = elim (Option-cases (as_object lib (lookup "data" env))) [
    | inl bad ↦ rw (read, rewrite, typ, bad) refl
    | inr (members, at) ↦ rw (read, rewrite, typ, at) (data_handled r payload env members)
  ]

  relay_cases :
      (s : Relay) (is_text : Bool) (payload : List ℕ)
      → ((relay_with_rewrite lib s is_text payload ≡ (s, payload))
          × ((s.sniffed ≡ true) ⊎ ¬ IsWelcome (is_text, payload)))
        ⊎ ((s.sniffed ≡ false)
            × (is_text ≡ true)
            × ((rewrite lib s.rewriter payload).1.handled ≡ true)
            × (relay_with_rewrite lib s is_text payload ≡ (
              record { rewriter = (rewrite lib s.rewriter payload).0; sniffed = true },
              (rewrite lib s.rewriter payload).1.payload,
            )))
  unfolding relay_with_rewrite
  relay_cases s is_text payload = elim (Bool-cases s.sniffed) [
    | inl past ↦ inl (ground arith, inl past)
    | inr fresh ↦ elim (Bool-cases (is_text && (rewrite lib s.rewriter payload).1.handled)) [
      | inl y ↦ inr (fresh, ground arith, ground arith, ground arith)
      | inr n ↦ inl (
        ground arith,
        inr (λ (text_eq, (env, read, typ)).
            absurd (ground (arith, welcome_handled s.rewriter payload env read typ))),
      )
    ]
  ]

  relay_sniffed :
      (s : Relay) (msgs : List (Bool × List ℕ))
      → s.sniffed ≡ true
      → relay_messages s msgs ≡ (s, payloads msgs)
  unfolding relay_messages relay_with_rewrite
  relay_sniffed s [] h = refl
  relay_sniffed s ((is_text, payload) ∷ rest) h = ground (arith, relay_sniffed s rest h)

  -- Of a sequence of messages from the server the first text message that decodes to a document of
  -- type welcome is rewritten, if none was before: the plugin gets all others as they came and in
  -- their order, and after it the relay rewrites nothing more; if there is none, or one was
  -- rewritten before, the plugin gets everything as it came and nothing changes.
  pub relay_messages_once :
      (s : Relay) (msgs : List (Bool × List ℕ))
      → ((relay_messages s msgs ≡ (s, payloads msgs))
          × ((s.sniffed ≡ true) ⊎ All (λ m. ¬ IsWelcome m) msgs))
        ⊎ ((before after : List (Bool × List ℕ)) × (payload : List ℕ) × (msgs
              ≡ before ++ (true, payload) ∷ after)
            × (s.sniffed ≡ false)
            × All (λ m. ¬ IsWelcome m) before
            × IsWelcome (true, payload)
            × (relay_messages s msgs ≡ (
              record { rewriter = (rewrite lib s.rewriter payload).0; sniffed = true },
              payloads before ++ (rewrite lib s.rewriter payload).1.payload ∷ payloads after,
            )))
  unfolding relay_messages
  relay_messages_once s [] = inl (refl, inr tt)
  relay_messages_once s ((is_text, payload) ∷ rest) = elim (relay_cases s is_text payload) [
    | inr (fresh, text_eq, handled, e) ↦ inr (
      [],
      rest,
      payload,
      ap (λ b. (b, payload) ∷ rest) text_eq,
      fresh,
      tt,
      (refl, handled_welcome s.rewriter payload handled),
      rw
          (
            e,
            relay_sniffed (record { rewriter = (rewrite lib s.rewriter payload).0; sniffed = true })
                rest refl,
          )
          refl,
    )
    | inl (e, why) ↦ elim (relay_messages_once s rest) [
      | inl (same, none_of) ↦ inl (
        rw (e, same) refl,
        elim why [
          | inl before ↦ inl before
          | inr this ↦ elim none_of [ inl before ↦ inl before | inr others ↦ inr (this, others) ]
        ],
      )
      | inr (before, after, p, split, fresh, others, welcome, out) ↦ inr (
        (is_text, payload) ∷ before,
        after,
        p,
        ap (◌∷◌ (is_text, payload)) split,
        fresh,
        (elim why [ inl before ↦ absurd (ground arith) | inr this ↦ this ], others),
        welcome,
        rw (e, out) refl,
      )
    ]
  ]
