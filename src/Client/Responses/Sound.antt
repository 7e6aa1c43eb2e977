-- ===== src/Client/Responses/Sound.antt =====
-- The response that a peer builds for a reply is complete and well formed.
use sysadmin.Base.{
  ℕ, IsU32, true, Bool, Option, none, some, List, [], ◌∷◌, map, All, OptAll, ◌≡◌, refl,
}
use sysadmin.Protobuf.{Text, Protobuf}
use sysadmin.Protobuf.Laws.{IsLawful}
use sysadmin.Wire.{opt_initialized, all_initialized}
use sysadmin.Ctl.ConfigValue.Laws as ConfigValueLaws
use sysadmin.Ctl.MappedField
use sysadmin.Ctl.MappedField.Laws as MappedFieldLaws
use sysadmin.Ctl.GetResponse as CtlGetResponse
use sysadmin.Ctl.GetResponse.Laws as GetResponseLaws
use sysadmin.Ctl.CommitResponse as CtlCommitResponse
use sysadmin.Ctl.CommitResponse.Laws as CommitResponseLaws
use sysadmin.Ctl.ResetResponse as CtlResetResponse
use sysadmin.Ctl.ResetResponse.Laws as ResetResponseLaws
use sysadmin.Ctl.DumpResponse as CtlDumpResponse
use sysadmin.Ctl.DumpResponse.Laws as DumpResponseLaws
use sysadmin.Ctl.BlameEntry as CtlBlameEntry
use sysadmin.Ctl.BlameEntry.Laws as BlameEntryLaws
use sysadmin.Ctl.BlameResponse as CtlBlameResponse
use sysadmin.Ctl.BlameResponse.Laws as BlameResponseLaws
use sysadmin.Ctl.Response
use sysadmin.Ctl.Response.{Response}
use sysadmin.Ctl.Response.Fields
use sysadmin.Ctl.Response.Laws as ResponseLaws
use sysadmin.Client.Status.{StatusCode}
use sysadmin.Client.Value.{SysadminValue}
use sysadmin.Client.Value.Valid.{IsValue, to_config_value-initialized, to_config_value-IsValid}
use sysadmin.Client.Responses.{Kvs, BlameEntry}
use sysadmin.Client.Responses.Reply.{
  Reply, get, commit, reset, dump, blame, generic, to_mapped_field, to_blame_entry, to_response,
}

all_initialized-map :
    {A B : Type 0} (p : B → Bool) (g : A → B)
    → ((a : A) → p (g a) ≡ true)
    → (as' : List A) → all_initialized p (map g as') ≡ true
unfolding all_initialized
all_initialized-map p g h [] = refl
all_initialized-map p g h (a ∷ as') = rw (h a, all_initialized-map p g h as')

All-map :
    {A B : Type 0} (Q : A → Type 0) (R : B → Type 0) (g : A → B)
    → ((a : A) → Q a → R (g a))
    → (as' : List A) → All Q as'
    → All R (map g as')
All-map Q R g h [] q = tt
All-map Q R g h (a ∷ as') q = (h a q.0, All-map Q R g h as' q.1)

module _ ⦃P : Protobuf⦄ where
  kvs_initialized :
      (k : Text) (o : Option SysadminValue)
      → MappedField.is_initialized (to_mapped_field (record { key = k; value = o })) ≡ true
  unfolding to_mapped_field opt_initialized MappedField.is_initialized MappedField.new
      MappedField.set_key MappedField.set_value
  kvs_initialized k none = refl
  kvs_initialized k (some v) = to_config_value-initialized v

  entry_initialized : (e : BlameEntry) → CtlBlameEntry.is_initialized (to_blame_entry e) ≡ true
  unfolding to_blame_entry opt_initialized CtlBlameEntry.is_initialized CtlBlameEntry.new
      CtlBlameEntry.set_val CtlBlameEntry.set_commit_time CtlBlameEntry.set_commit_id
  entry_initialized e = to_config_value-initialized e.val

  module _ (L : IsLawful P) where
    abbrev IsKvs : Kvs → Type 0
    IsKvs k = L.IsUtf8 k.key × OptAll (IsValue L) k.value

    abbrev IsEntry : BlameEntry → Type 0
    IsEntry e = IsU32 e.commit_id × L.IsUtf8 e.commit_time × IsValue L e.val

    abbrev IsCommitId : Option ℕ → Type 0
    IsCommitId none = ⊥
    IsCommitId (some n) = IsU32 n

    -- The fields are of their Rust types, and a commit has its identifier, which the format requires.
    abbrev pub IsReply : Reply → Type 0
    IsReply (get r) = IsU32 r.id × All IsKvs r.kvs
    IsReply (commit r) = IsU32 r.id × IsCommitId r.commit_id
    IsReply (reset r) = IsU32 r.id × IsU32 r.commit_id
    IsReply (dump r) = IsU32 r.id × All L.IsUtf8 r.templatehooks × All L.IsUtf8 r.servicehooks
    IsReply (blame key r) = IsU32 r.id × L.IsUtf8 key × All IsEntry r.entries
    IsReply (generic r) = IsU32 r.id

    kvs-IsValid :
        (k : Text) (o : Option SysadminValue)
        → L.IsUtf8 k
        → OptAll (IsValue L) o
        → MappedFieldLaws.IsValid L (to_mapped_field (record { key = k; value = o }))
    unfolding to_mapped_field MappedField.new MappedField.set_key MappedField.set_value
        ConfigValueLaws.codec
    kvs-IsValid k none h i = record { valid_key = h; valid_value = tt; no_unknown = refl }
    kvs-IsValid k (some v) h i = record {
      valid_key = h;
      valid_value = to_config_value-IsValid L v i;
      no_unknown = refl;
    }

    entry-IsValid : (e : BlameEntry) → IsEntry e → BlameEntryLaws.IsValid L (to_blame_entry e)
    unfolding to_blame_entry CtlBlameEntry.new CtlBlameEntry.set_val CtlBlameEntry.set_commit_time
        CtlBlameEntry.set_commit_id ConfigValueLaws.codec
    entry-IsValid e h = record {
      valid_commit_id = h.0;
      valid_commit_time = h.1;
      valid_val = to_config_value-IsValid L e.val h.2;
      no_unknown = refl;
    }

    -- The response is complete, and its fields are of their types.
    abbrev pub Sound : Response → Type 0
    Sound m = (Response.is_initialized m ≡ true) × ResponseLaws.IsValid L m

    commit-Sound :
        (id : ℕ) (s : StatusCode) (o : Option ℕ)
        → IsU32 id
        → IsCommitId o
        → Sound (to_response (commit (record { id = id; status = s; commit_id = o })))
    unfolding to_response opt_initialized Response.is_initialized CommitResponseLaws.codec
        CtlCommitResponse.is_initialized CtlCommitResponse.new CtlCommitResponse.set_commit_id
        Response.new Fields.set_id Fields.set_status Fields.set_commit
    commit-Sound id s none h i = absurd i
    commit-Sound id s (some n) h i = (
      refl,
      record {
        valid_id = h;
        valid_payload = (record { valid_commit_id = i; no_unknown = refl }, refl);
        no_unknown = refl;
      },
    )

    pub to_response-Sound : (r : Reply) → IsReply r → Sound (to_response r)
    unfolding to_response opt_initialized Response.is_initialized CtlGetResponse.is_initialized
        CtlResetResponse.is_initialized CtlDumpResponse.is_initialized
        CtlBlameResponse.is_initialized GetResponseLaws.codec ResetResponseLaws.codec
        DumpResponseLaws.codec BlameResponseLaws.codec MappedFieldLaws.codec BlameEntryLaws.codec
        CtlGetResponse.new CtlGetResponse.set_kvs CtlResetResponse.new
        CtlResetResponse.set_commit_id CtlDumpResponse.new CtlDumpResponse.set_templatehooks
        CtlDumpResponse.set_servicehooks CtlBlameResponse.new CtlBlameResponse.set_key
        CtlBlameResponse.set_entries Response.new Fields.set_id Fields.set_status Fields.set_get
        Fields.set_reset Fields.set_dump Fields.set_blame
    to_response-Sound (get r) h =
        let all : all_initialized MappedField.is_initialized (map to_mapped_field r.kvs) ≡ true =
          all_initialized-map MappedField.is_initialized to_mapped_field
            (λ k. kvs_initialized k.key k.value) r.kvs in
        (
          all,
          record {
            valid_id = h.0;
            valid_payload = (
              record {
                valid_kvs =
                    All-map IsKvs (MappedFieldLaws.IsValid L) to_mapped_field
                      (λ k i. kvs-IsValid k.key k.value i.0 i.1) r.kvs h.1;
                no_unknown = refl;
              },
              all,
            );
            no_unknown = refl;
          },
        )
    to_response-Sound (commit r) h = commit-Sound r.id r.status r.commit_id h.0 h.1
    to_response-Sound (reset r) h = (
      refl,
      record {
        valid_id = h.0;
        valid_payload = (record { valid_commit_id = h.1; no_unknown = refl }, refl);
        no_unknown = refl;
      },
    )
    to_response-Sound (dump r) h = (
      refl,
      record {
        valid_id = h.0;
        valid_payload = (
          record { valid_templatehooks = h.1; valid_servicehooks = h.2; no_unknown = refl },
          refl,
        );
        no_unknown = refl;
      },
    )
    to_response-Sound (blame key r) h =
        let all : all_initialized CtlBlameEntry.is_initialized (map to_blame_entry r.entries)
            ≡ true =
          all_initialized-map CtlBlameEntry.is_initialized to_blame_entry entry_initialized
            r.entries in
        (
          all,
          record {
            valid_id = h.0;
            valid_payload = (
              record {
                valid_key = h.1;
                valid_entries =
                    All-map IsEntry (BlameEntryLaws.IsValid L) to_blame_entry entry-IsValid
                      r.entries h.2;
                no_unknown = refl;
              },
              all,
            );
            no_unknown = refl;
          },
        )
    to_response-Sound (generic r) h =
        (refl, record { valid_id = h; valid_payload = tt; no_unknown = refl })
