-- ===== src/Channel/History.antt =====
-- Any sequence of calls of internal/channel on channels, by any callers. A caller that tests a
-- channel reads it, then calls upstream, and only then marks its health: what was read is
-- in hand meanwhile, and other calls may come between.
use gpt2api.Prelude.{
  ℕ, zero, suc, ◌≡◌, refl, String, Bool, Option, none, some, List, [], ◌∷◌, arith,
}
use gpt2api.Prelude.Sort.{All}
use gpt2api.Db.Action.{Result, ok, err}
use gpt2api.Db.Call.{Server, Gives}
use gpt2api.Channel.{
  Channel, Channels, ChannelInput, get_channel, delete_channel, mark_health, create_channel,
  edit_channel,
}
use gpt2api.Channel.Counted.{IsCounted, AllCounted, Keeps}
use gpt2api.Channel.Health.{
  get_channel-Gives, mark_health-Keeps, create_channel-Keeps, edit_channel-Keeps,
  delete_channel-Keeps,
}

pub data Change : Type 0 where
  creating : ChannelInput → Change
  editing : ℕ → ChannelInput → Change
  deleting : ℕ → Change
  reading : ℕ → Change
  marking : ℕ → ℕ → ℕ → Bool → String → Change

-- The channels in hand are a list, the last read one first; a mark names one by its place.
pub record World : Type 0 where
  pub server : Server Channels
  pub in_hand : List Channel

pub nth : ℕ → List Channel → Option Channel
nth n [] = none
nth zero (c ∷ cs) = some c
nth (suc n) (c ∷ cs) = nth n cs

abbrev pub keep_read : List Channel → Result Channel × Server Channels → World
keep_read cs (ok c, s) = record { server = s; in_hand = c ∷ cs }
keep_read cs (err e, s) = record { server = s; in_hand = cs }

abbrev pub mark_in_hand : ℕ → ℕ → Bool → String → World → Option Channel → World
mark_in_hand now id passed msg w none = w
mark_in_hand now id passed msg w (some c) = record w {
  server = (mark_health now id c passed msg w.server).1;
}

module _ (trim : String → String) (encrypt decrypt : String → Option String) where
  pub apply : Change → World → World
  apply (creating i) w = record w { server = (create_channel trim encrypt decrypt i w.server).1 }
  apply (editing id i) w = record w { server = (edit_channel trim encrypt decrypt id i w.server).1 }
  apply (deleting id) w = record w { server = (delete_channel id w.server).1 }
  apply (reading id) w = keep_read w.in_hand (get_channel id w.server)
  apply (marking now id n passed msg) w = mark_in_hand now id passed msg w (nth n w.in_hand)

  pub run : List Change → World → World
  run [] w = w
  run (c ∷ cs) w = run cs (apply c w)

  abbrev pub InStep : World → Type 0
  InStep w = AllCounted w.server.state × All IsCounted w.in_hand

  nth-IsCounted :
      (n : ℕ) (cs : List Channel) (c : Channel) → nth n cs ≡ some c → All IsCounted cs → IsCounted c
  unfolding nth
  nth-IsCounted n [] c e h = absurd (ground arith)
  nth-IsCounted zero (x ∷ cs) c e h = let same : x ≡ c = ground arith in rw (← same) h.0
  nth-IsCounted (suc n) (x ∷ cs) c e h = nth-IsCounted n cs c e h.1

  ended : {A : Type 0} (r : Result A × Server Channels) → Keeps r → AllCounted (r.1).state
  unfolding Keeps
  ended r h = h

  apply-InStep : (c : Change) (w : World) → InStep w → InStep (apply c w)
  unfolding apply
  apply-InStep (creating i) w h = (
    ended (create_channel trim encrypt decrypt i w.server)
        (create_channel-Keeps trim encrypt decrypt i w.server h.0),
    h.1,
  )
  apply-InStep (editing id i) w h = (
    ended (edit_channel trim encrypt decrypt id i w.server)
        (edit_channel-Keeps trim encrypt decrypt id i w.server h.0),
    h.1,
  )
  apply-InStep (deleting id) w h =
      (ended (delete_channel id w.server) (delete_channel-Keeps id w.server h.0), h.1)
  apply-InStep (reading id) w h = go (get_channel id w.server) (get_channel-Gives id w.server h.0)
    where
      go :
          (r : Result Channel × Server Channels)
          → Gives w.server.state (λ c d'. IsCounted c × AllCounted d') r
          → InStep (keep_read w.in_hand r)
      go (ok c, s) g = (g.1, (g.0, h.1))
      go (err e, s) g = (rw g h.0, h.1)
  apply-InStep (marking now id n passed msg) w h = go (nth n w.in_hand) refl
    where
      go : (o : Option Channel) → nth n w.in_hand ≡ o → InStep (mark_in_hand now id passed msg w o)
      go none e = h
      go (some c) e = (
        ended (mark_health now id c passed msg w.server) (
            mark_health-Keeps now id c passed msg w.server (nth-IsCounted n w.in_hand c e h.1) h.0),
        h.1,
      )

  -- Where every channel, stored or in hand, is unhealthy if and only if it has failed three times
  -- or more in a row, this is so after any creations, changes, deletions, reads and health marks,
  -- in any order and with any driver failures.
  pub run-InStep : (cs : List Change) (w : World) → InStep w → InStep (run cs w)
  unfolding run
  run-InStep [] w h = h
  run-InStep (c ∷ cs) w h = run-InStep cs (apply c w) (apply-InStep c w h)
