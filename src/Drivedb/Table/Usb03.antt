-- ===== src/Drivedb/Table/Usb03.antt =====
-- backends/exec/drivedb.h, lines 5869 to 6018.
use Prim.Native.String.{String}

unfoldable pub usb_text_03 : String
usb_text_03 =
    "    \"-d usbsunplus\"\n  },\n  { \"USB: Iomega; JMicron\",\n    \"0x059b:0x0(47[05]|57[15])\", // 0x0470: LPHD-UP, 0x0475: GDHDU2 (0x0100),\n      // 0x0575: LDHD-UP\n    \"\",\n    \"\",\n    \"-d usbjmicron\"\n  },\n  { \"USB: Iomega; JMicron\",\n    \"0x059b:0x047a\",\n    \"\", // 0x0100\n    \"\",\n    \"-d sat\" // works also with \"-d usbjmicron\"\n  },\n  // LaCie\n  { \"USB: LaCie hard disk (FA Porsche design);\",\n    \"0x059f:0x0651\",\n    \"\",\n    \"\",\n    \"\" // unsupported\n  },\n  { \"USB: LaCie d2 Quadra; Oxford OXUF934SSA-LQAG \", // USB+IEEE1394+eSATA->SATA\n    \"0x059f:0x0828\",\n    \"\",\n    \"\",\n    \"-d sat\"\n  },\n  { \"USB: LaCie hard disk; JMicron\",\n    \"0x059f:0x0951\",\n    \"\",\n    \"\",\n    \"-d usbjmicron\"\n  },\n  { \"USB: LaCie Rugged Triple Interface; \",\n    \"0x059f:0x100c\",\n    \"\", // 0x0001\n    \"\",\n    \"-d sat\"\n  },\n  { \"USB: LaCie Desktop Hard Drive;\",\n    \"0x059f:0x1010\",\n    \"\",\n    \"\",\n    \"-d usbsunplus\"\n  },\n  { \"USB: LaCie Desktop Hard Drive; \",\n    \"0x059f:0x101[68]\", // 0x1016: SAMSUNG HD103UJ\n    \"\", // 0x0001\n    \"\",\n    \"-d sat\"\n  },\n  { \"USB: LaCie Desktop Hard Drive; JMicron\",\n    \"0x059f:0x1019\",\n    \"\",\n    \"\",\n    \"-d usbjmicron\"\n  },\n  { \"USB: LaCie Rugged Hard Drive; JMicron\",\n    \"0x059f:0x101d\",\n    \"\", // 0x0001\n    \"\",\n    \"-d usbjmicron,x\"\n  },\n  { \"USB: LaCie Little Disk USB2; JMicron\",\n    \"0x059f:0x1021\",\n    \"\",\n    \"\",\n    \"-d usbjmicron\"\n  },\n  { \"USB: LaCie hard disk; \",\n    \"0x059f:0x1029\",\n    \"\", // 0x0100\n    \"\",\n    \"-d sat\"\n  },\n  { \"USB: Lacie rikiki; JMicron\",\n    \"0x059f:0x102a\",\n    \"\",\n    \"\",\n    \"-d usbjmicron,x\"\n  },\n  { \"USB: LaCie D2 USB3; LucidPort USB300 \",\n    \"0x059f:0x103d\",\n    \"\",\n    \"\",\n    \"-d sat\"\n  },\n  { \"USB: LaCie rikiki USB 3.0; \",\n    \"0x059f:0x10(49|57)\",\n    \"\",\n    \"\",\n    \"-d sat\"\n  },\n  { \"USB: LaCie minimus USB 3.0; \",\n    \"0x059f:0x104a\",\n    \"\",\n    \"\",\n    \"-d sat\"\n  },\n  { \"USB: LaCie Rugged Mini USB 3.0; \",\n    \"0x059f:0x1051\",\n    \"\", // 0x0000\n    \"\",\n    \"-d sat\"\n  },\n  { \"USB: LaCie P9230 (LAC302002); \",\n    \"0x059f:0x1053\",\n    \"\", // 0x0000\n    \"\",\n    \"-d sat\"\n  },\n  { \"USB: LaCie Rugged Mini HDD; \",\n    \"0x059f:0x106b\",\n    \"\",\n    \"\",\n    \"-d sat\"\n  },\n  { \"USB: LaCie; \", // 0x1070: ASMedia 1053 ?\n    \"0x059f:0x10(6f|7[05]|b8)\", // 0x0x10b8: d2 PROFESSIONAL\n    \"\", // 6f/70/b8=0x0001, 75=0x0000\n    \"\",\n    \"-d sat\"\n  },\n  // In-System Design\n  { \"USB: ; In-System/Cypress ISD-300A1\",\n    \"0x05ab:0x0060\",\n    \"\", // 0x1101\n    \"\",\n    \"-d usbcypress\"\n  },\n  // Apple\n  { \"USB: Apple; \",\n    \"0x05ac:0x8406\", // TOSHIBA MQ01UBB200\n    \"\",\n    \"\",\n    \"-d sat\"\n  },\n  // Genesys Logic\n  { \"USB: ; Genesys Logic GL881E\",\n    \"0x05e3:0x0702\",\n    \"\",\n    \"\",\n    \"\" // unsupported\n  },\n  { \"USB: ; Genesys Logic\",\n    \"0x05e3:0x(07(18|3[15]|61)|2013)\", // 0x0718(0x0041): Requires '-T permissive',\n    \"\", // 0x0731: Genesys Logic GL3310, Chieftec USB 3.0 2.5\" case, 0x0735(0x1003): ?,\n    \"\", // 0x0761(0x2402): Other World Computing SATA Adapter PA023U3,\n        // 0x2013(0x0100): Sharkoon QuickPort Duo Clone USB 3.1 Type-C"
