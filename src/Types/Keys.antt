-- ===== src/Types/Keys.antt =====
-- The keys by which services and destinations are matched with the kernel's table.
use Prim.Native.String.{◌++◌}
use text.Mathlib.TextLemmas.{nil-append, cons-append, append_assoc}
use fusis.Prelude.{String, ◌≡◌, refl, sym, ap, ◌∙◌}
use fusis.Prelude.Text.{concat, decimal}
use fusis.Prelude.Text.Dashes.{NoDash, decimal-injective, decimal-NoDash, split_last_dash}
use fusis.Types.Service
use fusis.Types.Service.{Service}
use fusis.Types.Destination
use fusis.Types.Destination.{Destination}

dash_append : (s t : String) → s ++ ("-" ++ t) ≡ s ++ String.◌∷◌ "-" t
dash_append s t = rw cons-append (rw nil-append refl)

-- Destinations with one kernel key have the same host and the same port, whatever characters the
-- host holds.
pub destination_key-injective :
    (d e : Destination)
    → Destination.kernel_key d ≡ Destination.kernel_key e
    → (d.host ≡ e.host) × (d.port ≡ e.port)
unfolding Destination.kernel_key concat
destination_key-injective d e h =
    let (host, port) =
      split_last_dash d.host e.host (decimal d.port) (decimal e.port) (decimal-NoDash d.port)
        (decimal-NoDash e.port) (sym (dash_append d.host _) ∙ (h ∙ dash_append e.host _)) in
    (host, decimal-injective d.port e.port port)

-- The service key, cut before its protocol.
key_at_protocol :
    (host port protocol : String)
    → host ++ ("-" ++ (port ++ ("-" ++ protocol)))
      ≡ (host ++ ("-" ++ port)) ++ String.◌∷◌ "-" protocol
key_at_protocol host port protocol =
    rw append_assoc
      (rw append_assoc (ap (λ (t : String). host ++ ("-" ++ t)) (dash_append port protocol)))

-- Services with one kernel key, whose protocols hold no dash, have the same host, port and
-- protocol.
pub service_key-injective :
    (s t : Service)
    → NoDash s.protocol
    → NoDash t.protocol
    → Service.kernel_key s ≡ Service.kernel_key t
    → (s.host ≡ t.host) × (s.port ≡ t.port) × (s.protocol ≡ t.protocol)
unfolding Service.kernel_key concat
service_key-injective s t ps pt h =
    let (address, protocol) =
      split_last_dash (s.host ++ ("-" ++ decimal s.port)) (t.host ++ ("-" ++ decimal t.port))
        s.protocol t.protocol ps pt
        (sym (key_at_protocol s.host _ _) ∙ (h ∙ key_at_protocol t.host _ _)) in
    let (host, port) =
      split_last_dash s.host t.host (decimal s.port) (decimal t.port) (decimal-NoDash s.port)
        (decimal-NoDash t.port) (sym (dash_append s.host _) ∙ (address ∙ dash_append t.host _)) in
    (host, decimal-injective s.port t.port port, protocol)
