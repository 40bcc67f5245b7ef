-- ===== src/Gateway/Hardened.antt =====
-- internal/targetgateway: what an enrollment proves of the target, and the bounds of a request for logs.
use vpsmith.Base.{◌||◌, ℕ, ◌≡◌, refl, arith, true, false, not, List, [], ◌∷◌, All}
use vpsmith.Base.{is_empty}
use vpsmith.Base.Text.{text, ◌==◌, eq_iff, to_lower, is_blank}
use vpsmith.Base.Result.{ok, reject, for_each, >>=-eq-ok, reject-eq-ok}
use vpsmith.Base.Dict.{text_at}
use vpsmith.Base.Keys.{for_each-All}
use vpsmith.State.Types.{CloudInitDesiredState}
use vpsmith.State.Observed.{PrimaryHardening, Observed, sort_ports}
use vpsmith.Gateway.Types.{
  no_cloud_init, cloud_init_version, not_bare, root_unlocked, invalid_ssh_config, ssh_value,
  wrong_ufw, no_fail2ban,
}
use vpsmith.Gateway.Inspect.{required, same_ports, firewall_holds, validate_enrollment}

-- The target that an enrollment accepts.
pub record IsHardened (desired : CloudInitDesiredState) (o : Observed) : Type 0 where
  pub present : o.cloud_init.present ≡ true
  pub status : o.cloud_init.status ≡ text "ok"
  pub version : o.cloud_init.version ≡ desired.definition_version
  pub no_core : o.core.present ≡ false
  pub no_modules : o.modules ≡ []
  pub root : o.host.primary_hardening.root_password_locked ≡ true
  pub ssh : All (λ p. to_lower (text_at o.host.primary_hardening.ssh_values p.0) ≡ p.1) required
  pub ports : sort_ports o.host.primary_hardening.ufw_allowed_public_tcp_ports ≡ 22 ∷ 80 ∷ 443 ∷ []
  pub incoming : o.host.primary_hardening.ufw_default_incoming ≡ text "deny"
  pub routed : o.host.primary_hardening.ufw_default_routed ≡ text "deny"
  pub firewall : o.host.primary_hardening.ufw_active ≡ true
  pub no_other : o.host.primary_hardening.ufw_unexpected_public_allow ≡ false
  pub bans : o.host.primary_hardening.fail2ban_ssh_active ≡ true
  pub updates : o.host.primary_hardening.unattended_upgrades_enabled ≡ true

same_ports_lem : (ps qs : List ℕ) → same_ports ps qs ≡ true → ps ≡ qs
unfolding same_ports
same_ports_lem [] [] h = refl
same_ports_lem [] (q ∷ qs) h = cc
same_ports_lem (p ∷ ps) [] h = cc
same_ports_lem (p ∷ ps) (q ∷ qs) h = ground (arith, same_ports_lem ps qs)

not_empty-false : {A : Type 0} (xs : List A) → not (is_empty xs) ≡ false → xs ≡ []
not_empty-false [] h = refl
not_empty-false (x ∷ xs) h = ground arith

pub validate_enrollment-IsHardened :
    (desired : CloudInitDesiredState) (o : Observed)
    → validate_enrollment desired o ≡ ok tt
    → IsHardened desired o
unfolding validate_enrollment
validate_enrollment-IsHardened desired o h =
    let f : PrimaryHardening = o.host.primary_hardening in
    let c = o.cloud_init in
    let (e1, h1) =
      reject-eq-ok
        (not c.present
          || not (c.status == text "ok")
          || is_blank c.version
          || is_blank c.finished_at)
        no_cloud_init _ h in
    let (e2, h2) =
      reject-eq-ok
        (is_blank desired.definition_version || not (c.version == desired.definition_version))
        cloud_init_version _ h1 in
    let (e3, h3) = reject-eq-ok (o.core.present || not (is_empty o.modules)) not_bare _ h2 in
    let (e4, h4) = reject-eq-ok (not f.root_password_locked) root_unlocked _ h3 in
    let (e5, h5) = reject-eq-ok (not f.ssh_config_valid) invalid_ssh_config _ h4 in
    let (_, e6, h6) =
      >>=-eq-ok
        (for_each (λ p. reject (not (to_lower (text_at f.ssh_values p.0) == p.1)) (ssh_value p.0))
          required)
        _ h5 in
    let (e7, h7) = reject-eq-ok (not (firewall_holds f)) wrong_ufw _ h6 in
    let (e8, h8) =
      reject-eq-ok (not f.fail2ban_ssh_active || not f.fail2ban_recidive_active) no_fail2ban _ h7 in
    record {
      present = ground arith;
      status = ground (arith, eq_iff o.cloud_init.status (text "ok"));
      version = ground (arith, eq_iff o.cloud_init.version desired.definition_version);
      no_core = ground arith;
      no_modules = not_empty-false o.modules (ground arith);
      root = ground arith;
      ssh =
          for_each-All
            (λ p. reject (not (to_lower (text_at f.ssh_values p.0) == p.1)) (ssh_value p.0)) _
            (λ p one. (eq_iff (to_lower (text_at f.ssh_values p.0)) p.1).0 (ground arith)) required
            e6;
      ports = same_ports_lem _ _ (ground arith);
      incoming = ground (arith, eq_iff f.ufw_default_incoming (text "deny"));
      routed = ground (arith, eq_iff f.ufw_default_routed (text "deny"));
      firewall = ground arith;
      no_other = ground arith;
      bans = ground arith;
      updates = ground arith;
    }
