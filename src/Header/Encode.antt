-- ===== src/Header/Encode.antt =====
-- The bytes that `rtMessageHeader_Encode` writes.
use rtmessage.Prelude.{
  ℕ, ◌+◌, ◌%◌, ◌≡◌, some, List, ◌++◌, length, arith, append_assoc, length-append,
}
use rtmessage.Encoder.{
  u16_mod, u32_mod, uint16_bytes, int32_bytes, encode_uint16, encode_int32, encode_string,
}
use rtmessage.Encoder.RoundTrip.{length-uint16_bytes, length-int32_bytes}
use rtmessage.Header.{
  Header, header_marker, header_version, size_without_strings, put_fields, encode, c_string,
}

-- The layout of a header on the wire, before the bytes that follow it.
abbrev pub wire : Header → List ℕ → List ℕ → List ℕ → List ℕ
wire hdr topic reply_topic rest =
    uint16_bytes header_marker
    ++ (uint16_bytes header_version
        ++ (uint16_bytes hdr.header_length
            ++ (int32_bytes hdr.sequence_number
                ++ (int32_bytes hdr.flags
                    ++ (int32_bytes hdr.control_data
                        ++ (int32_bytes hdr.payload_length
                            ++ (int32_bytes (length topic % u32_mod)
                                ++ (topic
                                    ++ (int32_bytes (length reply_topic % u32_mod)
                                        ++ (reply_topic
                                            ++ (uint16_bytes header_marker ++ rest)))))))))))

pub put_fields-wire :
    (hdr : Header) (topic reply_topic rest : List ℕ)
    → put_fields hdr topic reply_topic ++ rest ≡ wire hdr topic reply_topic rest
unfolding put_fields encode_uint16 encode_int32 encode_string
put_fields-wire hdr topic reply_topic rest = simp append_assoc

pub length-put_fields :
    (hdr : Header) (topic reply_topic : List ℕ)
    → length (put_fields hdr topic reply_topic)
      ≡ size_without_strings + length topic + length reply_topic
unfolding put_fields encode_uint16 encode_int32 encode_string
length-put_fields hdr topic reply_topic =
    simp (length-append, length-uint16_bytes, length-int32_bytes) (omega arith)

pub encode-eq :
    (hdr : Header) {topic reply_topic : List ℕ}
    → c_string hdr.topic ≡ some topic
    → c_string hdr.reply_topic ≡ some reply_topic
    → let len = (size_without_strings + length topic + length reply_topic) % u16_mod in
      encode hdr
      ≡ some (
        record hdr { header_length = len },
        put_fields (record hdr { header_length = len }) topic reply_topic,
      )
unfolding encode
encode-eq hdr t r = ground arith
