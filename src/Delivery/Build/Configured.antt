-- ===== src/Delivery/Build/Configured.antt =====
-- What the gateway makes of the values of a configuration.
use alert2ir.Prelude.{
  String, Bool, true, false, not, ◌||◌, ◌≡◌, refl, sym, subst, ◌∙◌, inl, inr, Bool-cases,
  Option-cases, ◌==◌, string_equality, ==_iff, if◌then◌else◌,
}
use alert2ir.Python.Result.{
  Result, ok, err, raise_exc_if, bind-ok, check-ok, action_configuration_error,
}
use alert2ir.Python.Text.{codes, is_blank, is_space}
use alert2ir.Python.Pattern.{strip, drop_spaces, drop_last_spaces}
use alert2ir.Python.Library.{Library, Documented}
use alert2ir.Python.Json.{Value, text, object}
use alert2ir.Splunk.Client.{is_one_of}
use alert2ir.Splunk.Models.{
  SigmaLevel, validate_rule_id, bounded_string, require_nonblank, validate_sigma_level,
  sigma_level_of, validate_channel,
}
use alert2ir.Delivery.Finding.{
  ActionConfiguration, require_string, canonical_uuid, validate_adapter_url, check_sigma_level,
  check_channel, configure, make_configuration, sigma_levels, sysmon_channel, has_nul,
}
use alert2ir.Delivery.Build.Accepted.{require_string-bounded}

-- a configuration whose values the gateway accepts as they are
pub record Configured (l : Library) (c : ActionConfiguration) : Type 0 where
  pub rule_id : validate_rule_id l (text c.rule_id) ≡ ok c.rule_id
  pub rule_title : bounded_string 256 (text c.rule_title) ≡ ok c.rule_title
  pub sigma_level : (level : SigmaLevel) × (validate_sigma_level (text c.sigma_level) ≡ ok level)
  pub channel : validate_channel l (text c.channel) ≡ ok c.channel

module _ (l : Library) (d : Documented l) where
  canonical_uuid-validated :
      (value : Value) (id : String)
      → canonical_uuid l value ≡ ok id
      → validate_rule_id l (text id) ≡ ok id
  unfolding canonical_uuid validate_rule_id
  canonical_uuid-validated value id h =
      let (s, read, h1) = bind-ok (require_string l value "rule_id" 36 true) _ id h in
      elim (Option-cases (l.parse_uuid s)) [
        | inl none_read ↦ absurd (
            let wrong : err (action_configuration_error "rule_id must be a UUID") ≡ ok id =
              rw none_read at h1 in
            cc)
        | inr (u, parsed) ↦
            let got : ok (l.uuid_text u) ≡ ok id = rw parsed at h1 in
            let same : l.uuid_text u ≡ id = cc in
            rw (← same) (rw (d.parse_text u (s, parsed), validate_rule_id) refl)
      ]

  require_string-title :
      (value : Value) (title : String)
      → require_string l value "rule_title" 256 true ≡ ok title
      → bounded_string 256 (text title) ≡ ok title
  unfolding require_string
  require_string-title (text s) title h =
      let (same, bounded) = require_string-bounded l s "rule_title" 256 true title h in
      rw same bounded
  require_string-title Value.null title h = absurd (cc)
  require_string-title (Value.boolean b) title h = absurd (cc)
  require_string-title (Value.integer n) title h = absurd (cc)
  require_string-title (Value.below_zero n) title h = absurd (cc)
  require_string-title Value.real title h = absurd (cc)
  require_string-title Value.array title h = absurd (cc)
  require_string-title (object members) title h = absurd (cc)

  pick :
      (b : Bool) (s : SigmaLevel) (r : Result SigmaLevel) (rest : Bool)
      → (rest ≡ true → (t : SigmaLevel) × (r ≡ ok t))
      → (b || rest) ≡ true
      → (t : SigmaLevel) × ((if b then ok s else r) ≡ ok t)
  pick true s r rest next h = (s, refl)
  pick false s r rest next h = next h

  level-validated :
      (level : String)
      → is_one_of sigma_levels level ≡ true
      → (s : SigmaLevel) × (validate_sigma_level (text level) ≡ ok s)
  unfolding validate_sigma_level sigma_level_of
  level-validated level listed =
      pick (level == "informational") _ _ _
        (pick (level == "low") _ _ _ (
          pick (level == "medium") _ _ _
            (pick (level == "high") _ _ _ (pick (level == "critical") _ _ _ (λ e. absurd (cc))))))
        listed

  channel-validated : validate_channel l (text sysmon_channel) ≡ ok sysmon_channel
  unfolding validate_channel bounded_string require_nonblank strip drop_spaces drop_last_spaces
      is_blank is_space
  channel-validated = rw (d.printable sysmon_channel refl) refl

  check_channel-same :
      (value : Value) (channel : String)
      → check_channel value ≡ ok channel
      → channel ≡ sysmon_channel
  unfolding check_channel
  check_channel-same (text s) channel h = elim (Bool-cases (s == sysmon_channel)) [
    | inl sysmon ↦
        let got : ok s ≡ ok channel = rw sysmon at h in
        let same : s ≡ channel = cc in sym same ∙ (==_iff s sysmon_channel).0 sysmon
    | inr other ↦ absurd (
        let wrong : err (action_configuration_error "channel is unsupported") ≡ ok channel =
          rw other at h in
        cc)
  ]
  check_channel-same Value.null channel h = absurd (cc)
  check_channel-same (Value.boolean b) channel h = absurd (cc)
  check_channel-same (Value.integer n) channel h = absurd (cc)
  check_channel-same (Value.below_zero n) channel h = absurd (cc)
  check_channel-same Value.real channel h = absurd (cc)
  check_channel-same Value.array channel h = absurd (cc)
  check_channel-same (object members) channel h = absurd (cc)

  check_sigma_level-listed :
      (value : Value) (level : String)
      → check_sigma_level value ≡ ok level
      → is_one_of sigma_levels level ≡ true
  unfolding check_sigma_level
  check_sigma_level-listed (text s) level h = elim (Bool-cases (is_one_of sigma_levels s)) [
    | inl listed ↦ let same : s ≡ level = cc in rw (← same) listed
    | inr other ↦ absurd (
        let wrong : err (action_configuration_error "sigma_level is unsupported") ≡ ok level =
          rw other at h in
        cc)
  ]
  check_sigma_level-listed Value.null level h = absurd (cc)
  check_sigma_level-listed (Value.boolean b) level h = absurd (cc)
  check_sigma_level-listed (Value.integer n) level h = absurd (cc)
  check_sigma_level-listed (Value.below_zero n) level h = absurd (cc)
  check_sigma_level-listed Value.real level h = absurd (cc)
  check_sigma_level-listed Value.array level h = absurd (cc)
  check_sigma_level-listed (object members) level h = absurd (cc)

  pub configure-Configured :
      (value : String → Value) (c : ActionConfiguration) → configure l value ≡ ok c → Configured l c
  unfolding configure
  configure-Configured value c h =
      let (url, _, h1) = bind-ok (validate_adapter_url l (value "adapter_url")) _ c h in
      let (id, id_read, h2) = bind-ok (canonical_uuid l (value "rule_id")) _ c h1 in
      let (file, _, h3) =
        bind-ok (require_string l (value "secret_file") "secret_file" 4_096 true) _ c h2 in
      let h4 =
        check-ok (raise_exc_if (has_nul (codes file) || not (l.is_absolute file)) _) _ c h3 in
      let (title, title_read, h5) =
        bind-ok (require_string l (value "rule_title") "rule_title" 256 true) _ c h4 in
      let (level, level_read, h6) = bind-ok (check_sigma_level (value "sigma_level")) _ c h5 in
      let (channel, channel_read, h7) = bind-ok (check_channel (value "channel")) _ c h6 in
      let made : make_configuration url file id title level channel ≡ c = cc in
      subst (Configured l) made (record {
        rule_id = canonical_uuid-validated (value "rule_id") id id_read;
        rule_title = require_string-title (value "rule_title") title title_read;
        sigma_level =
            level-validated level (check_sigma_level-listed (value "sigma_level") level level_read);
        channel = rw (check_channel-same (value "channel") channel channel_read) channel-validated;
      })
