-- ===== src/Channel/Mappings.antt =====
-- internal/channel/service.go, the mappings from local models to those of a channel. `trim` is
-- strings.TrimSpace.
use gpt2api.Prelude.{
  ℕ, ◌+◌, String, Bool, ◌&&◌, none, some, [], ◌∷◌, ◌==◌, not, str_eq, if◌then◌else◌,
}
use gpt2api.Prelude.Int.{ℤ, pos, ltb_ℤ}
use gpt2api.Db.Table.{Table, find, replace, find_where}
use gpt2api.Db.Action.{said, duplicate_key, ok, err}
use gpt2api.Db.Call.{Call, pure, raise_if, ◌>>=◌, ◌>>◌, statement}
use gpt2api.Channel.{Mapping, Channels, valid_modality}

-- `CreateMappingInput`
pub record MappingInput : Type 0 where
  pub channel_id : ℕ
  pub local_model : String
  pub upstream_model : String
  pub modality : String
  pub enabled : Bool
  pub priority : ℤ

-- The columns of `uk_channel_local_modality`.
abbrev pub same_slot : ℕ → String → String → Mapping → Bool
same_slot channel_id local_model modality m =
    (m.channel_id == channel_id) && (str_eq m.local_model local_model && str_eq m.modality modality)

-- `DAO.CreateMapping`, under the unique key and the foreign key to the channel.
pub insert_mapping : Mapping → Call Channels ℕ
insert_mapping m = statement λ d.
    elim (find_where (same_slot m.channel_id m.local_model m.modality) d.mappings) [
      | some r ↦ err duplicate_key
      | none ↦ elim (find m.channel_id d.channels) [
        | none ↦ err (said "foreign key")
        | some c ↦ ok (
          d.next_mapping,
          record d {
            mappings = (d.next_mapping, m) ∷ d.mappings;
            next_mapping = d.next_mapping + 1;
          },
        )
      ]
    ]

-- The rows of a table but for one key.
unfoldable pub without : ℕ → Table Mapping → Table Mapping
without id [] = []
without id ((j, m) ∷ t) = let rest = without id t in if id == j then rest else (j, m) ∷ rest

-- `DAO.UpdateMapping`, which leaves the channel as it is.
pub update_mapping : ℕ → MappingInput → Call Channels (Unit {0})
update_mapping id i = statement λ d. elim (find id d.mappings) [
  | none ↦ ok (tt, d)
  | some row ↦
      elim (find_where (same_slot row.channel_id i.local_model i.modality)
        (without id d.mappings)) [
          | some r ↦ err duplicate_key
          | none ↦ ok (
            tt,
            record d {
              mappings =
                  replace id
                    (record row {
                      local_model = i.local_model;
                      upstream_model = i.upstream_model;
                      modality = i.modality;
                      enabled = i.enabled;
                      priority = i.priority;
                    })
                    d.mappings;
            },
          )
        ]
]

-- `DAO.DeleteMapping`, which is `Service.DeleteMapping`.
pub delete_mapping : ℕ → Call Channels (Unit {0})
delete_mapping id = statement λ d. ok (tt, record d { mappings = without id d.mappings })

abbrev pub modality_of : MappingInput → String
modality_of i = if str_eq i.modality "" then "text" else i.modality

-- `Service.CreateMapping`: the key and the row.
pub create_mapping : (String → String) → MappingInput → Call Channels (ℕ × Mapping)
create_mapping trim i = do
  raise_if (i.channel_id == 0) (said "channel_id 不能为空")
  raise_if (str_eq (trim i.local_model) "") (said "local_model 不能为空")
  raise_if (str_eq (trim i.upstream_model) "") (said "upstream_model 不能为空")
  raise_if (not (valid_modality (modality_of i))) (said "modality 只能是 text / image / video")
  let m : Mapping = record {
    channel_id = i.channel_id;
    local_model = i.local_model;
    upstream_model = i.upstream_model;
    modality = modality_of i;
    enabled = i.enabled;
    priority = if ltb_ℤ i.priority (pos 0) then pos 100 else i.priority;
  }
  id ← insert_mapping m
  pure (id, m)

-- `Service.UpdateMapping`; the row that it returns is the input's.
pub edit_mapping : ℕ → MappingInput → Call Channels MappingInput
edit_mapping id i = do
  raise_if (not (valid_modality (modality_of i))) (said "modality 只能是 text / image / video")
  let j : MappingInput = record i { modality = modality_of i }
  update_mapping id j
  pure j
