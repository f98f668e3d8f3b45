-- ===== src/Drivedb/Table/Usb10.antt =====
-- backends/exec/drivedb.h, lines 6919 to 7068.
use Prim.Native.String.{String}

unfoldable pub usb_text_10 : String
usb_text_10 =
    "  // Transcend (?)\n  { \"USB: Transcend ESD310/400; \",\n    \"0x2174:0x2[01]00\", // 0x2000: TS256GESD400K. 0x2100: TS512GESD310C\n    \"\", // 0x1000, 0x0100\n    \"\",\n    \"-d sat\"\n  },\n  // 0x235c (?)\n  { \"USB: ; \",\n    \"0x235c:0xa006\", // Terramaster D4-320 (see also 0x5432:0x235c)\n    \"\", // 0x0100\n    \"\",\n    \"-d sat\"\n  },\n  // Norelsys\n  { \"USB: ; \", // USB 3.0\n    \"0x2537:0x106[68]\", // 0x1066: Orico 2599US3, 0x1068: Fantec ER-35U3\n    \"\", // 0x0100\n    \"\",\n    \"-d sat\"\n  },\n  // 0x2bdf (?)\n  { \"USB: ; \",\n    \"0x2bdf:0x0580\", // HIKSEMI\n    \"\", // 0x1601\n    \"\",\n    \"-d sat\"\n  },\n  // InX8 / AKiTiO\n  { \"USB: AkiTio NT2 U3.1C; \",\n    \"0x2ce5:0x0014\",\n    \"\", // 0x0100\n    \"\",\n    \"-d sat\"\n  },\n  // 0x2eb9 (?): See Realtek (0x0bda) above\n  // KIOXIA (?)\n  { \"USB: ; \", // KIOXIA EXCERIA PLUS\n    \"0x30de:0x1000\",\n    \"\",\n    \"\",\n    \"-d sntjmicron\"\n  },\n  // 0x31db (?)\n  { \"USB: ; \",\n    \"0x31db:0x0716\", // DockCase 10s PLP 2.5\" Enclosure\n    \"\", // 0x0148\n    \"\",\n    \"-d sat\"\n  },\n  // Framework Computer Inc\n  { \"USB: Framework 250/1000 GB Expansion Card; Phison PS2251\",\n    \"0x32ac:0x0005\",\n    \"\", // 0x0110\n    \"\",\n    \"-d sntasmedia\"\n  },\n  // Power Quotient International\n  { \"USB: PQI bridge; \",\n    \"0x3538:0x0064\",\n    \"\",\n    \"\",\n    \"-d usbsunplus\"\n  },\n  { \"USB: PQI H560; \",\n    \"0x3538:0x0902\",\n    \"\", // 0x0000\n    \"\",\n    \"-d sat\"\n  },\n  // Sharkoon\n  { \"USB: Sharkoon QuickPort XT USB 3.0; \",\n    \"0x357d:0x7788\",\n    \"\",\n    \"\",\n    \"-d sat\"\n  },\n  // Hitachi/SimpleTech\n  { \"USB: Hitachi Touro Desk; JMicron\", // 3TB\n    \"0x4971:0x1011\",\n    \"\",\n    \"\",\n    \"-d usbjmicron\"\n  },\n  { \"USB: Hitachi Touro; \",\n    \"0x4971:0x101[345]\", // 14=1TB, 15=2TB, 13=Touro Desk Pro 3TB\n    \"\", // 0x0000\n    \"\",\n    \"-d sat\" // ATA output registers missing\n  },\n  { \"USB: Hitachi Touro Mobile; \", // 1TB\n    \"0x4971:0x102[034]\",\n    \"\", // 0x0100\n    \"\",\n    \"-d sat\"\n  },\n  { \"USB: SimpleTech;\", // USB 3.0 HDD BOX Agestar,  Rock External HDD 3,5\" UASP\n    \"0x4971:0x8017\",\n    \"\",\n    \"\",\n    \"-d sat\"\n  },\n  { \"USB: Hitachi/SimpleTech; JMicron\", // 1TB\n    \"0x4971:0xce17\",\n    \"\",\n    \"\",\n    \"-d usbjmicron,x\"\n  },\n  // 0x5432 (?)\n  { \"USB: ; \",\n    \"0x5432:0x235c\", // TerraMaster D4-320 (see also 0x235c:0xa006)\n    \"\", // 0x0100\n    \"\",\n    \"-d sat\"\n  },\n  { \"USB: ; \",\n    \"0x5432:0x1352\", // TerraMaster D8 Hybrid\n    \"\", // 0x0100\n    \"\",\n    \"-d sat\"\n  },\n  // OnSpec\n  { \"USB: ; OnSpec\", // USB->PATA\n    \"0x55aa:0x2b00\",\n    \"\", // 0x0100\n    \"\",\n    \"\" // unsupported\n  },\n  // 0x5910 (?)\n  { \"USB: ; \",\n    \"0x5910:0x13fd\", // Sabrent EC-SSHD\n    \"\", // 0x0153\n    \"\",\n    \"-d sat\"\n  },\n  // 0x6795 (?)\n  { \"USB: Sharkoon 2-Bay RAID Box; \", // USB 3.0\n    \"0x6795:0x2756\",\n    \"\", // 0x0100\n    \"\",\n    \"-d sat\"\n  },\n  // Transcend\n  { \"USB: ; \",\n    \"0x8564:0x7000\",\n    \"\", // 0x8000\n    \"\",\n    \"-d sat\"\n  },\n  // Other World Computing"
