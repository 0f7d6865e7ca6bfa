-- ===== src/Server/Services.antt =====
-- The libraries behind the relay client, in one parameter, and the client's shared state.
use sechat_client.Base.{Bool, Option, List}
use sechat_client.Base.Bytes.{Text}
use sechat_client.Base.Int.{ℤ}
use sechat_client.Crypto.Disk.{Disk}
use sechat_client.Crypto.Primitives.{Primitives, PrimitiveLaws, Codec, CodecLaws, Sled, SledLaws}
use sechat_client.Crypto.Types.{Message, PeerPublic, ErrorKind}
use sechat_client.Server.Structs.{ClientToServer, ServerToClient, BlobPayload}

pub record Services (D : Type 0) : Type 0 where
  pub primitives : Primitives
  pub sled : Sled D
  pub message_codec : Codec Message
  pub blob_codec : Codec BlobPayload
  pub client_codec : Codec ClientToServer
  pub server_codec : Codec ServerToClient
  -- The messages of errors: of the operating system, of the codecs, and of argon2, the cipher and
  -- the hex crate.
  pub io_text : ErrorKind → Text
  pub codec_text : Text
  pub crypto_text : Text

pub record ServicesLaws {D : Type 0} (x : Services D) : Type 0 where
  pub primitive_laws : PrimitiveLaws x.primitives
  pub sled_laws : SledLaws x.sled
  pub message_laws : CodecLaws x.message_codec
  pub blob_laws : CodecLaws x.blob_codec

pub record OnlinePeer : Type 0 where
  pub keys : PeerPublic
  pub address : Text
  pub last_seen : ℤ

-- The files, and the two statics of crates/serverclient/src/lib.rs with their locks' poison flags.
pub record World (D : Type 0) : Type 0 where
  pub disk : Disk D
  pub my_address : Option Text
  pub online : List OnlinePeer
  pub address_poisoned : Bool
  pub peers_poisoned : Bool
