-- ===== src/Tests/Reports.antt =====
-- The reports of tools at concrete texts.
use bythos.Base.{
  ℕ, ◌≡◌, ◌≤◌, ◌<◌, refl, false, true, Option, none, some, [], ◌∷◌, arith, Bytes, codes, length,
  lines, line_bytes, concat, concat-lines,
}
use bythos.Firmware.Labels.{count_nonempty_lines}
use bythos.Firmware.Labels.Lines.{split_lines, with_text, count_nonempty_lines-split_lines}
use bythos.Firmware.Join.{join_short_list_names}
use bythos.Firmware.Join.Bounds.{names_in, join_short_list_names-Fits}
use bythos.Firmware.Hsi.{HsiNotPassing, hsi_collect_not_passing}
use bythos.Firmware.Hsi.Records.{IsCollected, hsi_collect_not_passing-IsCollected}
use bythos.Firmware.Hsi.Attribute.{HsiAttribute, hsi_find_attribute, action_firmware}
use bythos.Firmware.Hsi.Attribute.Bounds.{FitsFields, hsi_find_attribute-FitsFields}
use bythos.Firmware.Sbctl.{parse_sbctl_status}
use bythos.Firmware.Sbctl.Fields.{IsFilled, parse_sbctl_status-IsFilled}

abbrev keys : Bytes
keys = codes "4ae90a6 PK\n\r\n  4ae90a6 PK\nlonely\n"

keys_kept : concat (lines keys) ≡ line_bytes keys
keys_kept = concat-lines keys

lines_counted : count_nonempty_lines keys ≡ with_text false (split_lines keys)
lines_counted = count_nonempty_lines-split_lines keys

three_lines : count_nonempty_lines keys ≡ 3
unfolding count_nonempty_lines codes bythos.Base.is_eol bythos.Base.is_blank
three_lines = refl

join_short_list_names-Fits_example :
    (out : Bytes) × (join_short_list_names keys 128 4 32 ≡ (names_in (lines keys), some out))
    × length out < 128
join_short_list_names-Fits_example =
    join_short_list_names-Fits keys 128 4 32 (omega arith) (omega arith) (omega arith)

joined_keys : join_short_list_names keys 128 4 32 ≡ (2, some (codes "PK, PK [4ae90a6]"))
unfolding join_short_list_names codes bythos.Firmware.Join.add_lines bythos.Firmware.Join.add_tail
    bythos.Firmware.Join.hash_and_name bythos.Firmware.Join.trim_name bythos.Firmware.Join.add_name
    bythos.Firmware.Join.place_name bythos.Firmware.Join.suffix_of bythos.Firmware.Join.collides
    bythos.Base.lines bythos.Base.drop_while bythos.Base.is_eol bythos.Base.take_while
    bythos.Base.is_blank bythos.Base.equal
joined_keys = refl

not_shown : join_short_list_names keys 128 1 32 ≡ (2, some (codes "PK (and 1 more)"))
unfolding join_short_list_names codes bythos.Firmware.Join.add_lines bythos.Firmware.Join.add_tail
    bythos.Firmware.Join.hash_and_name bythos.Firmware.Join.trim_name bythos.Firmware.Join.add_name
    bythos.Firmware.Join.place_name bythos.Firmware.Join.suffix_of bythos.Firmware.Join.collides
    bythos.Base.lines bythos.Base.drop_while bythos.Base.is_eol bythos.Base.take_while
    bythos.Base.is_blank bythos.Base.equal bythos.Firmware.Join.tail_of bythos.Base.decimal
    bythos.Base.decimal_from
not_shown = refl

abbrev report : Bytes
report =
    codes
      "[{\"AppstreamId\" : \"org.fwupd.hsi.Uefi.Pk\", \"HsiResult\" : \"not-valid\", \"Flags\" : [\"action-config-fw\"]}, {\"AppstreamId\" : \"org.fwupd.hsi.Spi\", \"HsiResult\" : \"not-supported\"}, {\"AppstreamId\" : \"x\", \"Flags\" : [\"success\"]}]"

hsi_collect_not_passing-IsCollected_example :
    (out : HsiNotPassing) × (hsi_collect_not_passing report ≡ some out) × IsCollected out
hsi_collect_not_passing-IsCollected_example = hsi_collect_not_passing-IsCollected report

one_weak :
    hsi_collect_not_passing report
    ≡ some (record {
      total = 2;
      not_supported = 1;
      named = 1;
      id = codes "org.fwupd.hsi.Uefi.Pk" ∷ [];
    })
unfolding hsi_collect_not_passing codes bythos.Firmware.Hsi.appstream_id_key
    bythos.Firmware.Hsi.flags_key bythos.Firmware.Hsi.success_token
    bythos.Firmware.Hsi.hsi_result_key bythos.Firmware.Hsi.not_supported_text
    bythos.Firmware.Hsi.find_before bythos.Firmware.Hsi.behind bythos.Firmware.Hsi.hsi_value_span
    bythos.Firmware.Hsi.all_id_bytes bythos.Firmware.Hsi.hsi_id_reproducible
    bythos.Firmware.Hsi.is_passing bythos.Firmware.Hsi.is_not_supported
    bythos.Firmware.Hsi.printable_id bythos.Firmware.Hsi.add_weak bythos.Firmware.Hsi.add_record
    bythos.Base.strstr bythos.Base.strchr bythos.Base.drop_while bythos.Base.is_blank
    bythos.Base.is_eol bythos.Base.equal
one_weak = refl

hsi_find_attribute-FitsFields_example :
    (r : Option HsiAttribute) × (hsi_find_attribute report (codes "org.fwupd.hsi.Uefi.Pk") ≡ some r)
    × FitsFields r
hsi_find_attribute-FitsFields_example =
    hsi_find_attribute-FitsFields report (codes "org.fwupd.hsi.Uefi.Pk")

platform_key :
    hsi_find_attribute report (codes "org.fwupd.hsi.Uefi.Pk")
    ≡ some (
        some (record {
          result = codes "not-valid";
          success = [];
          action = action_firmware;
          passing = false;
        }))
unfolding hsi_find_attribute codes bythos.Firmware.Hsi.Attribute.next_id
    bythos.Firmware.Hsi.Attribute.read_attribute bythos.Firmware.Hsi.Attribute.with_flags
    bythos.Firmware.Hsi.Attribute.success_of bythos.Firmware.Hsi.Attribute.flags_action
    bythos.Firmware.Hsi.Attribute.action_of bythos.Firmware.Hsi.appstream_id_key
    bythos.Firmware.Hsi.find_before bythos.Firmware.Hsi.hsi_result_key
    bythos.Firmware.Hsi.extract_quoted_value bythos.Firmware.Hsi.find_char_before
    bythos.Firmware.Hsi.flags_key bythos.Firmware.Hsi.success_token
    bythos.Firmware.Hsi.hsi_success_key bythos.Base.strstr bythos.Base.strchr bythos.Base.equal
    bythos.Base.contains
platform_key = refl

abbrev status : Bytes
status = codes "Installed:\tsbctl is installed\nOwner GUID:\t4f1a \nSetup Mode:\tDisabled\n"

status_texts : IsFilled ((parse_sbctl_status status).1)
status_texts = parse_sbctl_status-IsFilled status

installed : (parse_sbctl_status status).0 ≡ true
unfolding parse_sbctl_status codes bythos.Firmware.Sbctl.apply_line
    bythos.Firmware.Sbctl.apply_value bythos.Firmware.Sbctl.read_field
    bythos.Firmware.Labels.skip_label_value bythos.Base.drop_while bythos.Base.take_while
    bythos.Base.is_eol bythos.Base.is_space bythos.Base.strchr bythos.Base.starts_with
    bythos.Base.contains
installed = refl
