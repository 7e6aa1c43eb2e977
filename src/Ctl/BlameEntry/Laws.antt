-- ===== src/Ctl/BlameEntry/Laws.antt =====
-- The codec of `BlameEntry`: its size, its bytes and its parser agree.
use sysadmin.Base.{IsU32, none, [], ◌++◌, OptAll, opt_map, ◌≡◌, refl, ok, arith}
use sysadmin.Protobuf.{Bytes, length_delimited, Protobuf}
use sysadmin.Protobuf.Laws.{IsLawful, Fits}
use sysadmin.Wire.{expect}
use sysadmin.Wire.Sized.{opt-sized, is_some-sized, opt_initialized-sized}
use sysadmin.Wire.Initialized.{is_some-opt_map, opt_initialized-opt_map}
use sysadmin.Wire.Codec.{IsCodec, Sizes, Writes}
use sysadmin.Wire.Sizes.{
  opt, wrap32-Sizes, append-Sizes, opt-Sizes, message_bytes, opt_message-Sizes,
}
use sysadmin.Wire.Kinds.{
  u32_bytes, text_bytes, u32-Sizes, text-Sizes, unknown-Sizes, u32-Writes, text-Writes,
  unknown-Writes,
}
use sysadmin.Wire.Writes.{append-Writes, opt-Writes, opt_message-Writes}
use sysadmin.Wire.Reads.{Parses, append-Parses, merge_loop-reads}
use sysadmin.Wire.Reads.Fields.{unknown_reads, singular_string_reads, optional_u32_reads}
use sysadmin.Wire.Reads.Messages.{singular_message_reads}
use sysadmin.Ctl.ConfigValue.Laws as ConfigValueLaws
use sysadmin.Ctl.ConfigValue
use sysadmin.Ctl.BlameEntry.{
  BlameEntry, new, is_initialized, merge_field, merge_from, compute_size,
  write_to_with_cached_sizes, get_cached_size, message,
}

module _ ⦃P : Protobuf⦄ (L : IsLawful P) where
  unfoldable pub encode : BlameEntry → Bytes
  encode m =
      opt (u32_bytes L 1) m.commit_id
      ++ (opt (text_bytes L 2) m.commit_time
          ++ (opt (message_bytes L (ConfigValueLaws.codec L).encode 3) m.val
              ++ L.unknown m.unknown_fields))

  unfoldable pub fresh : BlameEntry → BlameEntry
  fresh m = record {
    commit_id = m.commit_id;
    commit_time = m.commit_time;
    val = opt_map (ConfigValueLaws.codec L).fresh m.val;
    unknown_fields = P.no_fields;
    cached_size = 0;
  }

  pub record IsValid (m : BlameEntry) : Type 0 where
    pub valid_commit_id : OptAll IsU32 m.commit_id
    pub valid_commit_time : OptAll L.IsUtf8 m.commit_time
    pub valid_val : OptAll (ConfigValueLaws.codec L).IsValid m.val
    pub no_unknown : m.unknown_fields ≡ P.no_fields

  pub compute_size-Sizes : (m : BlameEntry) → Sizes (compute_size m).0 (encode m)
  unfolding compute_size encode
  compute_size-Sizes m = wrap32-Sizes (
      append-Sizes (opt-Sizes (u32-Sizes L 1) m.commit_id) (
        append-Sizes (opt-Sizes (text-Sizes L 2) m.commit_time) (
          append-Sizes
            (opt_message-Sizes L (ConfigValueLaws.codec L) 1 3
              (L.length-tag 3 length_delimited (omega arith) (omega arith)) m.val)
            (unknown-Sizes L m.unknown_fields))))

  pub write_to_writes :
      (m : BlameEntry) → Writes (write_to_with_cached_sizes (compute_size m).1) (encode m)
  unfolding compute_size write_to_with_cached_sizes encode
  write_to_writes m = append-Writes (opt-Writes (u32-Writes L 1) m.commit_id) (
      append-Writes (opt-Writes (text-Writes L 2) m.commit_time) (
        append-Writes (opt_message-Writes L (ConfigValueLaws.codec L) 1 3 m.val)
          (unknown-Writes L m.unknown_fields)))

  message-Parses : (m : BlameEntry) → IsValid m → Parses merge_field new (encode m) (fresh m)
  unfolding merge_field expect new encode fresh
  message-Parses m v =
      append-Parses
        (record {
          parse =
              optional_u32_reads L merge_field 1 (omega arith)
                (λ v. record {
                  commit_id = v;
                  commit_time = none;
                  val = none;
                  unknown_fields = P.no_fields;
                  cached_size = 0;
                })
                (λ is. refl) m.commit_id v.valid_commit_id;
        })
        (append-Parses
          (record {
            parse =
                singular_string_reads L merge_field 2 (omega arith)
                  (λ v. record {
                    commit_id = m.commit_id;
                    commit_time = v;
                    val = none;
                    unknown_fields = P.no_fields;
                    cached_size = 0;
                  })
                  (λ is. refl) m.commit_time v.valid_commit_time;
          })
          (append-Parses
            (record {
              parse =
                  singular_message_reads L (ConfigValueLaws.codec L) merge_field 3 (omega arith)
                    (λ v. record {
                      commit_id = m.commit_id;
                      commit_time = m.commit_time;
                      val = v;
                      unknown_fields = P.no_fields;
                      cached_size = 0;
                    })
                    (λ is. refl) m.val v.valid_val;
            })
            (record {
              parse = λ h. unknown_reads L merge_field (fresh m) m.unknown_fields v.no_unknown;
            })))

  pub cached : (m : BlameEntry) → get_cached_size (compute_size m).1 ≡ (compute_size m).0
  unfolding get_cached_size compute_size
  cached m = refl

  pub merged :
      (m : BlameEntry) → IsValid m → Fits (encode m) → merge_from new (encode m) ≡ ok (fresh m, [])
  unfolding merge_from
  merged m v h = merge_loop-reads L ((message-Parses m v).parse h)

  pub initialized_fresh : (m : BlameEntry) → is_initialized (fresh m) ≡ is_initialized m
  unfolding is_initialized fresh ConfigValue.message
  initialized_fresh m = rw (
    is_some-opt_map (ConfigValueLaws.codec L).fresh m.val,
    opt_initialized-opt_map (ConfigValueLaws.codec L).fresh ConfigValue.is_initialized
        (ConfigValueLaws.codec L).is_initialized-fresh m.val,
  )

  pub encode_sized : (m : BlameEntry) → encode (compute_size m).1 ≡ encode m
  unfolding compute_size encode
  encode_sized m = rw (opt-sized L (ConfigValueLaws.codec L) 1 3 m.val)

  pub initialized_sized : (m : BlameEntry) → is_initialized (compute_size m).1 ≡ is_initialized m
  unfolding compute_size is_initialized ConfigValue.message
  initialized_sized m = rw (
    is_some-sized L (ConfigValueLaws.codec L) 1 m.val,
    opt_initialized-sized L (ConfigValueLaws.codec L) 1 m.val,
  )

  unfoldable pub codec : IsCodec message
  unfolding message encode fresh
  codec = record {
    encode = encode;
    fresh = fresh;
    IsValid = IsValid;
    is_initialized-fresh = initialized_fresh;
    encode-compute_size = encode_sized;
    is_initialized-compute_size = initialized_sized;
    compute_size_lem = compute_size-Sizes;
    get_cached_size_lem = cached;
    write_lem = write_to_writes;
    merge_from_lem = λ m v h. merged m v h;
  }
