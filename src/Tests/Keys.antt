-- ===== src/Tests/Keys.antt =====
-- The kernel keys and the names of the operations.
use fusis.Prelude.{List, [], ◌∷◌, false, true, String, ◌≡◌, refl, arith}
use fusis.Prelude.Text.{concat, decimal}
use fusis.Types.Service
use fusis.Types.Service.{Service}
use fusis.Types.Destination
use fusis.Types.Destination.{Destination}
use fusis.Types.Keys.{destination_key-injective, service_key-injective}
use fusis.GoMap.{values}
use fusis.Diff.{diff}
use fusis.Diff.Laws.{mentions, merged_key, diff-partition}
use fusis.Tests.Samples.{web, one}

web_key : Service.kernel_key web ≡ "10.0.0.1-80-tcp"
unfolding Service.kernel_key concat decimal
web_key = refl

one_key : Destination.kernel_key one ≡ "192.168.0.1-8080"
unfolding Destination.kernel_key concat decimal
one_key = refl

destination_key-injective_example : (one.host ≡ one.host) × (one.port ≡ one.port)
destination_key-injective_example =
    destination_key-injective one (record one { name = "two"; mode = "route" })
      (unfold Destination.kernel_key in refl)

service_key-injective_example :
    (web.host ≡ web.host) × (web.port ≡ web.port) × (web.protocol ≡ web.protocol)
service_key-injective_example =
    service_key-injective web (record web { name = "other" }) (omega arith) (omega arith)
      (unfold Service.kernel_key in refl)

abbrev key_of : String → String
key_of k = k

abbrev old_keys : List String
old_keys = "a" ∷ "b" ∷ []

diff-partition_example :
    (mentions key_of "b" (values (diff key_of key_of old_keys ("b" ∷ "c" ∷ [])).to_add) ≡ false)
    × (mentions key_of "b" (diff key_of key_of old_keys ("b" ∷ "c" ∷ [])).to_remove ≡ false)
    × (mentions
          (merged_key key_of key_of)
          "b"
          (diff key_of key_of old_keys ("b" ∷ "c" ∷ [])).to_merge
        ≡ true)
diff-partition_example =
    diff-partition key_of key_of "b" old_keys ("b" ∷ "c" ∷ []) (refl, (refl, tt))
