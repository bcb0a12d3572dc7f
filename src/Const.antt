-- ===== src/Const.antt =====
-- const.go, and the version of packets.go: versions, message types, sizes and the texts that are
-- mixed into hashes. A text is the list of its bytes.
use saltpack.Base.{ℕ, ◌≤◌, ◌≡◌, ◌↔◌, Bool, true, ◌&&◌, List, [], ◌∷◌, ◌++◌, arith}
use saltpack.Base.{ℤ, pos, negsuc, eq_int, eq_int_iff}
use Prim.Native.String.{String}
use Prim.Native.Char.{code}

-- The code points of a text: its bytes, if it is ASCII.
abbrev pub codes : String → List ℕ
codes String.[] = []
codes (String.◌∷◌ c s) = code c ∷ codes s

pub record Version : Type 0 where
  pub major : ℤ
  pub minor : ℤ

-- Go's `==` on two versions.
abbrev pub eq_version : Version → Version → Bool
eq_version v w = eq_int v.major w.major && eq_int v.minor w.minor

abbrev pub version1 : Version
version1 = record { major = pos 1; minor = pos 0 }

abbrev pub version2 : Version
version2 = record { major = pos 2; minor = pos 0 }

abbrev pub known_versions : List Version
known_versions = version1 ∷ version2 ∷ []

-- `MessageType` is an `int`; the wire can hold any.
abbrev pub MessageType : Type 0
MessageType = ℤ

abbrev pub message_type_unknown : MessageType
message_type_unknown = negsuc 0

abbrev pub message_type_encryption : MessageType
message_type_encryption = pos 0

abbrev pub message_type_attached_signature : MessageType
message_type_attached_signature = pos 1

abbrev pub message_type_detached_signature : MessageType
message_type_detached_signature = pos 2

abbrev pub message_type_signcryption : MessageType
message_type_signcryption = pos 3

-- 1 MiB. Shut, so that no proof counts to it.
pub encryption_block_size : ℕ
encryption_block_size = 1048576

pub signature_block_size : ℕ
signature_block_size = 1048576

pub encryption_block_size-pos : 1 ≤ encryption_block_size
unfolding encryption_block_size
encryption_block_size-pos = omega arith

pub signature_block_size-pos : 1 ≤ signature_block_size
unfolding signature_block_size
signature_block_size-pos = omega arith

abbrev pub format_name : List ℕ
format_name = codes "saltpack"

abbrev pub encryption_armor_string : List ℕ
encryption_armor_string = codes "ENCRYPTED MESSAGE"

abbrev pub signed_armor_string : List ℕ
signed_armor_string = codes "SIGNED MESSAGE"

abbrev pub detached_signature_armor_string : List ℕ
detached_signature_armor_string = codes "DETACHED SIGNATURE"

-- The three texts end in a zero byte.
abbrev pub signature_attached_string : List ℕ
signature_attached_string = codes "saltpack attached signature" ++ (0 ∷ [])

abbrev pub signature_detached_string : List ℕ
signature_detached_string = codes "saltpack detached signature" ++ (0 ∷ [])

abbrev pub signature_encrypted_string : List ℕ
signature_encrypted_string = codes "saltpack encrypted signature" ++ (0 ∷ [])

abbrev pub signcryption_symmetric_key_context : List ℕ
signcryption_symmetric_key_context = codes "saltpack signcryption derived symmetric key"

abbrev pub signcryption_box_key_identifier_context : List ℕ
signcryption_box_key_identifier_context = codes "saltpack signcryption box key identifier"

abbrev pub crypto_auth_bytes : ℕ
crypto_auth_bytes = 32

abbrev pub crypto_auth_key_bytes : ℕ
crypto_auth_key_bytes = 32

abbrev pub max_receiver_count : ℕ
max_receiver_count = 4294967295

pub eq_version_iff : (v w : Version) → (eq_version v w ≡ true) ↔ (v ≡ w)
eq_version_iff v w = ground (arith, eq_int_iff v.major w.major, eq_int_iff v.minor w.minor)
