-- ===== src/Channel/Health.antt =====
-- Every call of internal/channel on channels keeps failure counts and health in step.
use gpt2api.Prelude.{
  ℕ, ◌+◌, ◌≡◌, refl, String, Bool, true, false, ◌&&◌, not, Option, none, some, ◌∷◌, arith, leb,
  str_eq, if◌then◌else◌, Bool-cases, inl, inr,
}
use gpt2api.Db.Table.{find}
use gpt2api.Db.Action.{Error, said, Result, ok, err}
use gpt2api.Db.Call.{Server, Call, pure, raise, raise_if, ◌>>=◌, ◌>>◌, Gives, statement-Gives}
use gpt2api.Channel.{
  Channel, Channels, healthy, unhealthy, ChannelInput, insert_channel, found, get_channel, written,
  update_channel, delete_channel, probed, update_health, mark_health, decorate, get_shown, Shown,
  new_channel, encrypted, checked, create_channel, edited, edit_channel, valid_type,
}
use gpt2api.Channel.Counted.{
  IsCounted, AllCounted, find-All, Keeps, statement-Keeps, bind-Keeps, raise_if-Keeps,
  rewriting-Keeps,
}

-- Reading leaves the table and returns a row of it.
found-IsCounted :
    (id : ℕ) (d d' : Channels) (c : Channel) (o : Option Channel)
    → find id d.channels ≡ o
    → found d o ≡ ok (c, d')
    → AllCounted d
    → IsCounted c × AllCounted d'
found-IsCounted id d d' c none at e h = absurd (ground arith)
found-IsCounted id d d' c (some x) at e h = elim (Bool-cases x.deleted) [
  | inl f ↦ absurd (ground arith)
  | inr f ↦
      let same : x ≡ c = ground arith in
      let kept : d ≡ d' = ground arith in
      (rw (← same) (find-All IsCounted id x d.channels at h), rw (← kept) h)
]

pub get_channel-Gives :
    (id : ℕ) (s : Server Channels)
    → AllCounted s.state
    → Gives s.state (λ c d'. IsCounted c × AllCounted d') (get_channel id s)
unfolding get_channel
get_channel-Gives id s h =
    statement-Gives (λ d. found d (find id d.channels)) (λ c d'. IsCounted c × AllCounted d')
      s.state s refl λ c d' e. found-IsCounted id s.state d' c (find id s.state.channels) refl e h

-- What a probe writes is counted, where the channel that it was made for was.
probed-IsCounted :
    (now : ℕ) (c row : Channel) (msg : String)
    → IsCounted c
    → IsCounted (
        probed now false msg
          (c.fail_count + 1)
          (if leb 3 (c.fail_count + 1) then unhealthy else c.status)
          row)
probed-IsCounted now c row msg h = ground arith

pub mark_health-Keeps :
    (now id : ℕ) (c : Channel) (passed : Bool) (msg : String) (s : Server Channels)
    → IsCounted c
    → AllCounted s.state
    → Keeps (mark_health now id c passed msg s)
unfolding mark_health update_health
mark_health-Keeps now id c true msg s counted h =
    rewriting-Keeps id (λ row. true) (probed now true msg 0 healthy) s
      (λ row _. record { failed = λ e. absurd (ground arith); marked = λ le. absurd (omega arith) })
      h
mark_health-Keeps now id c false msg s counted h =
    rewriting-Keeps id (λ row. true) _ s (λ row _. probed-IsCounted now c row msg counted) h

pub get_channel-Keeps :
    (id : ℕ) (s : Server Channels) → AllCounted s.state → Keeps (get_channel id s)
unfolding Keeps
get_channel-Keeps id s h = go (get_channel id s) (get_channel-Gives id s h)
  where
    go :
        (r : Result Channel × Server Channels)
        → Gives s.state (λ c d'. IsCounted c × AllCounted d') r
        → Keeps r
    go (ok c, t) g = g.1
    go (err e, t) g = rw g h

get_shown-Keeps :
    (trim : String → String) (encrypt decrypt : String → Option String) (id : ℕ)
    (s : Server Channels)
    → AllCounted s.state
    → Keeps (get_shown trim encrypt decrypt id s)
unfolding Keeps get_shown
get_shown-Keeps trim encrypt decrypt id s h =
    bind-Keeps (get_channel id) (λ c. pure (decorate trim encrypt decrypt c)) s
      (get_channel-Keeps id s h) λ c t k. k

insert_channel-Keeps :
    (c : Channel) (s : Server Channels)
    → IsCounted c
    → AllCounted s.state
    → Keeps (insert_channel c s)
unfolding Keeps insert_channel
insert_channel-Keeps c s counted h =
    statement-Keeps (λ d. ok (d.next_channel, inserted d)) s h
      λ id d' e. rw (← new id d' e) (counted, h)
  where
    inserted : Channels → Channels
    inserted d = record d {
      channels = (d.next_channel, c) ∷ d.channels;
      next_channel = d.next_channel + 1;
    }

    new :
        (id : ℕ) (d' : Channels)
        → ◌≡◌ {A = Result (ℕ × Channels)}
            (ok (s.state.next_channel, inserted s.state))
            (ok (id, d'))
        → inserted s.state ≡ d'
    new id d' e = cc e

encrypted-Keeps :
    (trim : String → String) (encrypt decrypt : String → Option String) (key : String)
    (s : Server Channels)
    → AllCounted s.state
    → Keeps (encrypted trim encrypt decrypt key s)
unfolding Keeps
encrypted-Keeps trim encrypt decrypt key s h = go (encrypt key)
  where
    go :
        (o : Option String)
        → Keeps (
            (elim o as (λ _. Call Channels String) [
              | none ↦ raise (said "encrypt api_key")
              | some enc ↦ pure enc
            ])
              s)
    go none = h
    go (some enc) = h

pub delete_channel-Keeps :
    (id : ℕ) (s : Server Channels) → AllCounted s.state → Keeps (delete_channel id s)
unfolding delete_channel
delete_channel-Keeps id s h =
    rewriting-Keeps id (λ row. true) (λ row. record row { deleted = true }) s
      (λ row k. record { failed = k.failed; marked = k.marked }) h

update_channel-Keeps :
    (id : ℕ) (c : Channel) (s : Server Channels)
    → AllCounted s.state
    → Keeps (update_channel id c s)
unfolding update_channel
update_channel-Keeps id c s h =
    rewriting-Keeps id (λ row. not row.deleted) (written c) s
      (λ row k. record { failed = k.failed; marked = k.marked }) h

checked-Keeps :
    (trim : String → String) (encrypt decrypt : String → Option String) (i : ChannelInput)
    (s : Server Channels)
    → AllCounted s.state
    → Keeps (checked trim encrypt decrypt i s)
unfolding Keeps checked
checked-Keeps trim encrypt decrypt i s h =
    go (str_eq (trim i.name) "") (not (valid_type i.kind)) (str_eq (trim i.base_url) "")
      (str_eq (trim i.api_key) "")
  where
    go :
        (a b c d : Bool)
        → AllCounted
            (((raise_if a (said "name 不能为空")
                  >> (raise_if b (said "type 只能是 openai / gemini")
                      >> (raise_if c (said "base_url 不能为空") >> raise_if d (said "api_key 不能为空"))))
                s).1
              ).state
    go true b c d = h
    go false true c d = h
    go false false true d = h
    go false false false d = h

pub create_channel-Keeps :
    (trim : String → String) (encrypt decrypt : String → Option String) (i : ChannelInput)
    (s : Server Channels)
    → AllCounted s.state
    → Keeps (create_channel trim encrypt decrypt i s)
unfolding create_channel
create_channel-Keeps trim encrypt decrypt i s h =
    bind-Keeps (checked trim encrypt decrypt i) (λ _. stored) s
      (checked-Keeps trim encrypt decrypt i s h)
      λ _ t k.
        bind-Keeps (encrypted trim encrypt decrypt i.api_key) inserting t
          (encrypted-Keeps trim encrypt decrypt i.api_key t k)
          λ enc u m.
            bind-Keeps (insert_channel (new_channel trim encrypt decrypt i enc))
              (get_shown trim encrypt decrypt) u
              (insert_channel-Keeps (new_channel trim encrypt decrypt i enc) u (fresh enc) m)
              λ id v n. get_shown-Keeps trim encrypt decrypt id v n
  where
    inserting : String → Call Channels Shown
    inserting enc =
        insert_channel (new_channel trim encrypt decrypt i enc) >>= get_shown trim encrypt decrypt

    stored : Call Channels Shown
    stored = encrypted trim encrypt decrypt i.api_key >>= inserting

    fresh : (enc : String) → IsCounted (new_channel trim encrypt decrypt i enc)
    fresh enc = record { failed = λ e. absurd (ground arith); marked = λ le. absurd (omega arith) }

abbrev new_key :
    (String → String)
    → (String → Option String)
    → (String → Option String)
    → ChannelInput
    → Channel
    → Call Channels String
new_key trim encrypt decrypt i c =
    if str_eq i.api_key "" then pure c.api_key_enc else encrypted trim encrypt decrypt i.api_key

new_key-Keeps :
    (trim : String → String) (encrypt decrypt : String → Option String) (i : ChannelInput)
    (c : Channel) (t : Server Channels)
    → AllCounted t.state
    → Keeps (new_key trim encrypt decrypt i c t)
unfolding Keeps
new_key-Keeps trim encrypt decrypt i c t k = elim (Bool-cases (str_eq i.api_key "")) [
  | inl e ↦ rw e k
  | inr e ↦ rw e (
      through (encrypted trim encrypt decrypt i.api_key t)
        (encrypted-Keeps trim encrypt decrypt i.api_key t k))
]
  where
    through : (r : Result String × Server Channels) → Keeps r → AllCounted (r.1).state
    through r h = h

pub edit_channel-Keeps :
    (trim : String → String) (encrypt decrypt : String → Option String) (id : ℕ) (i : ChannelInput)
    (s : Server Channels)
    → AllCounted s.state
    → Keeps (edit_channel trim encrypt decrypt id i s)
unfolding edit_channel
edit_channel-Keeps trim encrypt decrypt id i s h =
    bind-Keeps (get_channel id) (λ c. raise_if bad wrong >> keyed c) s (get_channel-Keeps id s h)
      λ c t k. raise_if-Keeps bad wrong (keyed c) t k (
        bind-Keeps (new_key trim encrypt decrypt i c) (writing c) t
          (new_key-Keeps trim encrypt decrypt i c t k)
          λ enc u m.
            bind-Keeps (update_channel id (edited trim encrypt decrypt i enc c))
              (λ _. get_shown trim encrypt decrypt id) u
              (update_channel-Keeps id (edited trim encrypt decrypt i enc c) u m)
              λ _ v n. get_shown-Keeps trim encrypt decrypt id v n)
  where
    bad : Bool
    bad = not (str_eq i.kind "") && not (valid_type i.kind)

    wrong : Error
    wrong = said "type 只能是 openai / gemini"

    writing : Channel → String → Call Channels Shown
    writing c enc =
        update_channel id (edited trim encrypt decrypt i enc c) >> get_shown trim encrypt decrypt id

    keyed : Channel → Call Channels Shown
    keyed c = new_key trim encrypt decrypt i c >>= writing c
