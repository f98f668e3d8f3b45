-- ===== src/Drivedb/Table/Usb02.antt =====
-- backends/exec/drivedb.h, lines 5719 to 5868.
use Prim.Native.String.{String}

unfoldable pub usb_text_02 : String
usb_text_02 =
    "    \"\",\n    \"\",\n    \"-d usbjmicron\"\n  },\n  { \"USB: Samsung Portable SSD T7; ASMedia ASM2362\",\n    \"0x04e8:0x(4001|61fb)\", // 0x61fb: T7 Shield\n    \"\", // 0x0100\n    \"\",\n    \"-d sntasmedia\"\n  },\n  { \"USB: Samsung Story Station; \",\n    \"0x04e8:0x5f0[56]\",\n    \"\",\n    \"\",\n    \"-d sat\"\n  },\n  { \"USB: Samsung G2 Portable; JMicron\",\n    \"0x04e8:0x6032\",\n    \"0x0000\",\n    \"\",\n    \"-d usbjmicron\" // ticket #132\n  },\n  { \"USB: Samsung G2 Portable; \",\n    \"0x04e8:0x6032\",\n    \"0x...[1-9]\", // >= 0x0001\n    \"\",\n    \"-d sat\"\n  },\n  { \"USB: Samsung Story Station 3.0; \",\n    \"0x04e8:0x6052\",\n    \"\",\n    \"\",\n    \"-d sat\"\n  },\n  { \"USB: Samsung Story Station 3.0; \",\n    \"0x04e8:0x6054\",\n    \"\",\n    \"\",\n    \"-d sat\"\n  },\n  { \"USB: Samsung M2 Portable 3.0; \",\n    \"0x04e8:0x60c5\",\n    \"\",\n    \"\",\n    \"-d sat\"\n  },\n  { \"USB: Samsung D3 Station; \",\n    \"0x04e8:0x612[45]\", // 3TB, 4TB\n    \"\", // 0x200, 0x202\n    \"\",\n    \"-d sat\"\n  },\n  { \"USB: Samsung M3 Portable USB 3.0; \", // 1.5/2TB: SpinPoint M9TU\n    \"0x04e8:0x61b[3456]\", // 500MB, 2TB, 1.5TB, 1TB\n    \"\", // 0x0e00\n    \"\",\n    \"-d sat\"\n  },\n  { \"USB: Samsung S3 Portable; \",\n    \"0x04e8:0x61c8\", // ST1000LM025 HN-M101ABB\n    \"\", // 0x1301\n    \"\",\n    \"-d sat\"\n  },\n  { \"USB: Samsung Portable SSD T5; \",\n    \"0x04e8:0x61f5\",\n    \"\", // 0x0100\n    \"\",\n    \"-d sat\"\n  },\n  { \"USB: Samsung Portable SSD T9; ASMedia ASM2362\",\n    \"0x04e8:0x61fd\",\n    \"\", // 0x0100\n    \"\",\n    \"-d sntasmedia\"\n  },\n  { \"USB: Samsung; \",\n    \"0x04e8:0x8003\", // USB3 Adapter from SSD EVO 850 Starter Kit\n    \"\", // 0x0100\n    \"\",\n    \"-d sat\"\n  },\n  // Sony\n  { \"USB: Sony HD-E1; \",\n    \"0x054c:0x05bf\", //  Sony HD-E1B - 1TB USB3.0\n    \"\", // 0x6610\n    \"\",\n    \"-d sat\"\n  },\n  // Sunplus\n  { \"USB: ; SunPlus\",\n    \"0x04fc:0x0c05\",\n    \"\",\n    \"\",\n    \"-d usbsunplus\"\n  },\n  { \"USB: ; SunPlus SPDIF215\",\n    \"0x04fc:0x0c15\",\n    \"\", // 0xf615\n    \"\",\n    \"-d usbsunplus\"\n  },\n  { \"USB: ; SunPlus SPDIF225\", // USB+SATA->SATA\n    \"0x04fc:0x0c25\",\n    \"\", // 0x0103\n    \"\",\n    \"-d usbsunplus\"\n  },\n  // Intrinsix\n  { \"USB: ; Intrinsix\",\n    \"0x0578:0x0578\",\n    \"\", // 0x0202\n    \"\",\n    \"-d sat\" // ATA output registers missing\n  },\n  // Iomega\n  { \"USB: Iomega Prestige Desktop USB 3.0; \",\n    \"0x059b:0x0070\",\n    \"\", // 0x0004\n    \"\",\n    \"-d sat\" // ATA output registers missing\n  },\n  { \"USB: Iomega LPHD080-0; \",\n    \"0x059b:0x0272\",\n    \"\",\n    \"\",\n    \"-d usbcypress\"\n  },\n  { \"USB: Iomega MDHD500-U; JMicron\",\n    \"0x059b:0x0274\",\n    \"\", // 0x0000\n    \"\",\n    \"-d usbjmicron,0\"\n  },\n  { \"USB: Iomega MDHD500-U; \",\n    \"0x059b:0x0275\",\n    \"\", // 0x0001\n    \"\",\n    \"\" // unsupported\n  },\n  { \"USB: Iomega; JMicron\",\n    \"0x059b:0x027[78]\",  // 0x0277: MDHD-UE, 0x0278: LDHD-UPS\n    \"\", // 0x0000\n    \"\",\n    \"-d usbjmicron\"\n  },\n  { \"USB: Iomega LDHD-UP; Sunplus\",\n    \"0x059b:0x0370\",\n    \"\",\n    \"\","
