-- ===== src/Drivedb/Table/Usb11.antt =====
-- backends/exec/drivedb.h, lines 7069 to 7155.
use Prim.Native.String.{String}

unfoldable pub usb_text_11 : String
usb_text_11 =
    "  { \"USB: USB3 to SATA; \",\n    \"0x7825:0xa2a4\",\n    \"\", // 0x4101\n    \"\",\n    \"-d sat\"\n  },\n  // JMicron II\n  { \"USB: ; JMicron JMS566\",\n    \"0xa152:0xb566\",\n    \"\", // 0x0223\n    \"\",\n    \"-d sat\"\n  },\n  // 0xab12 (?)\n  { \"USB: ; JMicron JMS578\",\n    \"0xab12:0x34cd\",\n    \"\", // 0x0405\n    \"\",\n    \"-d sat\"\n  },\n  // Logilink\n  { \"USB: ; \",\n    \"0xabcd:0x610[34]\", // 0x6103: LogiLink AU0028A V1.0 USB 3.0 to IDE & SATA Adapter\n      // 0x6104: LogiLink PCCloneEX Lite\n    \"\",\n    \"\",\n    \"-d sat\"\n  },\n  // Custom additions from smartmontools-go community reports\n  // (entries not present in upstream drivedb.h)\n  { \"USB: ; JMicron\", // Cheap Chinese USB to SATA adapter - smartmontools issue #330\n    \"0x152d:0xa580\",\n    \"\",\n    \"\",\n    \"-d sat\"\n  },\n  { \"USB: ; Realtek\", // Realtek USB Bridge - smartmontools issue #345\n    \"0x0bda:0x0309\",\n    \"\",\n    \"\",\n    \"-d sat\"\n  },\n  { \"USB: ; JMicron\", // Fantec AD-U3S Bridge - smartmontools issue #1797\n    \"0x152d:0xb567\",\n    \"\",\n    \"\",\n    \"-d sat\"\n  },\n  { \"USB: ; ASMedia\",\n    \"0x174c:0x55aa\",\n    \"\",\n    \"\",\n    \"-d sat\"\n  },\n  { \"USB: ; Realtek\",\n    \"0x0bda:0x0316\",\n    \"\",\n    \"\",\n    \"-d sat\"\n  },\n  { \"USB: ; Realtek\",\n    \"0x0bda:0x0326\",\n    \"\",\n    \"\",\n    \"-d sat\"\n  },\n  { \"USB: ; ASMedia\",\n    \"0x174c:0x5106\",\n    \"\",\n    \"\",\n    \"-d sat\"\n  },\n  { \"USB: ; ASMedia\",\n    \"0x174c:0x1153\",\n    \"\",\n    \"\",\n    \"-d sat\"\n  },\n  { \"USB: ; VIA\",\n    \"0x2109:0x0715\",\n    \"\",\n    \"\",\n    \"-d sat\"\n  },\n/*\n}; // builtin_knowndrives[]\n */\n"
