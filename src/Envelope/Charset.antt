-- ===== src/Envelope/Charset.antt =====
-- envelope/charsets.go: the names of character sets. The encodings themselves are those of
-- golang.org/x/text, and stand here by their names there.
pub mod Resolved
use smtpx.Base.{
  Bool, true, false, List, [], ◌∷◌, Option, none, some, Bytes, codes, equal, to_lower,
  if◌then◌else◌,
}

pub data Encoding : Type 0 where
  iso8859_1 iso8859_2 iso8859_3 iso8859_4 iso8859_5 iso8859_6 : Encoding
  iso8859_7 iso8859_8 iso8859_9 iso8859_10 iso8859_13 iso8859_14 : Encoding
  iso8859_15 iso8859_16 windows1250 windows1251 windows1252 windows1253 : Encoding
  windows1254 windows1255 windows1256 windows1257 windows1258 windows874 : Encoding
  codepage437 codepage850 codepage852 codepage855 codepage858 codepage866 : Encoding
  koi8r koi8u macintosh shiftjis eucjp iso2022jp : Encoding
  euckr gb18030 gbk big5 utf8 utf16_be : Encoding
  utf16_le utf16_bom : Encoding

-- The read of a map with these names as its keys.
unfoldable pub find_name {ℓ} : {A : Type ℓ} → Bytes → List (Bytes × A) → Option A
unfolding equal
find_name k [] = none
find_name k ((name, a) ∷ rest) = if equal k name then some a else find_name k rest

-- `charsetEncodings`
unfoldable pub charset_encodings : List (Bytes × Encoding)
charset_encodings =
    (codes "iso-8859-1", iso8859_1)
    ∷ (codes "iso-8859-2", iso8859_2)
    ∷ (codes "iso-8859-3", iso8859_3)
    ∷ (codes "iso-8859-4", iso8859_4)
    ∷ (codes "iso-8859-5", iso8859_5)
    ∷ (codes "iso-8859-6", iso8859_6)
    ∷ (codes "iso-8859-7", iso8859_7)
    ∷ (codes "iso-8859-8", iso8859_8)
    ∷ (codes "iso-8859-9", iso8859_9)
    ∷ (codes "iso-8859-10", iso8859_10)
    ∷ (codes "iso-8859-13", iso8859_13)
    ∷ (codes "iso-8859-14", iso8859_14)
    ∷ (codes "iso-8859-15", iso8859_15)
    ∷ (codes "iso-8859-16", iso8859_16)
    ∷ (codes "windows-1250", windows1250)
    ∷ (codes "windows-1251", windows1251)
    ∷ (codes "windows-1252", windows1252)
    ∷ (codes "windows-1253", windows1253)
    ∷ (codes "windows-1254", windows1254)
    ∷ (codes "windows-1255", windows1255)
    ∷ (codes "windows-1256", windows1256)
    ∷ (codes "windows-1257", windows1257)
    ∷ (codes "windows-1258", windows1258)
    ∷ (codes "windows-874", windows874)
    ∷ (codes "ibm437", codepage437)
    ∷ (codes "ibm850", codepage850)
    ∷ (codes "ibm852", codepage852)
    ∷ (codes "ibm855", codepage855)
    ∷ (codes "ibm858", codepage858)
    ∷ (codes "ibm866", codepage866)
    ∷ (codes "koi8r", koi8r)
    ∷ (codes "koi8u", koi8u)
    ∷ (codes "macintosh", macintosh)
    ∷ (codes "shift_jis", shiftjis)
    ∷ (codes "shift-jis", shiftjis)
    ∷ (codes "sjis", shiftjis)
    ∷ (codes "euc-jp", eucjp)
    ∷ (codes "eucjp", eucjp)
    ∷ (codes "iso-2022-jp", iso2022jp)
    ∷ (codes "iso2022jp", iso2022jp)
    ∷ (codes "euc-kr", euckr)
    ∷ (codes "euckr", euckr)
    ∷ (codes "gb2312", gb18030)
    ∷ (codes "gbk", gbk)
    ∷ (codes "gb18030", gb18030)
    ∷ (codes "big5", big5)
    ∷ (codes "big-5", big5)
    ∷ (codes "utf-8", utf8)
    ∷ (codes "utf-16be", utf16_be)
    ∷ (codes "utf-16le", utf16_le)
    ∷ (codes "utf-16", utf16_bom)
    ∷ []

-- `charsetAliases`
unfoldable pub charset_aliases : List (Bytes × Bytes)
charset_aliases =
    (codes "ascii", codes "iso-8859-1")
    ∷ (codes "us-ascii", codes "iso-8859-1")
    ∷ (codes "latin1", codes "iso-8859-1")
    ∷ (codes "latin2", codes "iso-8859-2")
    ∷ (codes "latin3", codes "iso-8859-3")
    ∷ (codes "latin4", codes "iso-8859-4")
    ∷ (codes "latin5", codes "iso-8859-9")
    ∷ (codes "latin6", codes "iso-8859-10")
    ∷ (codes "latin7", codes "iso-8859-13")
    ∷ (codes "latin8", codes "iso-8859-14")
    ∷ (codes "latin9", codes "iso-8859-15")
    ∷ (codes "latin10", codes "iso-8859-16")
    ∷ (codes "cp1250", codes "windows-1250")
    ∷ (codes "cp1251", codes "windows-1251")
    ∷ (codes "cp1252", codes "windows-1252")
    ∷ (codes "cp1253", codes "windows-1253")
    ∷ (codes "cp1254", codes "windows-1254")
    ∷ (codes "cp1255", codes "windows-1255")
    ∷ (codes "cp1256", codes "windows-1256")
    ∷ (codes "cp1257", codes "windows-1257")
    ∷ (codes "cp1258", codes "windows-1258")
    ∷ (codes "cp874", codes "windows-874")
    ∷ (codes "ms874", codes "windows-874")
    ∷ (codes "tis-620", codes "windows-874")
    ∷ (codes "ms-ansi", codes "windows-1252")
    ∷ (codes "ms_kanji", codes "shift-jis")
    ∷ (codes "csshiftjis", codes "shift-jis")
    ∷ (codes "x-sjis", codes "shift-jis")
    ∷ (codes "ms932", codes "shift-jis")
    ∷ (codes "5601", codes "euc-kr")
    ∷ (codes "ks_c_5601", codes "euc-kr")
    ∷ (codes "ansi936", codes "gb2312")
    ∷ (codes "cp936", codes "gbk")
    ∷ (codes "ms936", codes "gbk")
    ∷ (codes "ansi950", codes "big5")
    ∷ (codes "cp950", codes "big5")
    ∷ (codes "koi8-r", codes "koi8r")
    ∷ (codes "koi8-u", codes "koi8u")
    ∷ []

alias_of : Option Bytes → Bytes
alias_of none = []
alias_of (some name) = name

-- The encoding of a name in lower case, or of what it is an alias of.
unfoldable pub resolve : Bytes → Option Encoding
unfolding alias_of find_name charset_encodings charset_aliases
resolve charset = elim (find_name charset charset_encodings) [
  | some e ↦ some e
  | none ↦ find_name (alias_of (find_name charset charset_aliases)) charset_encodings
]

-- `charsetReader`: the decoder that the input goes through, if any. It never fails.
unfoldable pub charset_reader : Bytes → Option Encoding
unfolding resolve to_lower
charset_reader charset = resolve (to_lower charset)
