-- ===== src/Drivedb/Table/Usb07.antt =====
-- backends/exec/drivedb.h, lines 6469 to 6618.
use Prim.Native.String.{String}

unfoldable pub usb_text_07 : String
usb_text_07 =
    "    \"-d sat\"\n  },\n  { \"USB: ADATA; Cypress\",\n    \"0x125f:0xa9[34]a\", // 0xa93a: SH93 (0x0150)\n    \"\",\n    \"\",\n    \"-d usbcypress\"\n  },\n  // 0x1352 (?)\n  { \"USB: ; \",\n    \"0x1352:0xa006\", // TerraMaster D2-320\n    \"\", // 0x0100\n    \"\",\n    \"-d sat\"\n  },\n  // Initio\n  { \"USB: ; Initio\",\n    \"0x13fd:0x(054|1(04|15))0\", // 0x0540: Initio 316000\n    \"\", // 0x1040 (0x0106): USB->SATA+PATA, Chieftec CEB-25I\n    \"\", // 0x1150: Initio 6Y120L0, CoolerMaster XCraft RX-3HU\n    \"\" // unsupported\n  },\n  { \"USB: ; Initio\",\n    \"0x13fd:0x16[45]0\",\n    \"\", // 0x1640: 0x0864, 0x1650: 0x0436\n    \"\",\n    \"-d sat,12\" // some SMART commands fail, see ticket #295\n  },\n  { \"USB: ; Initio\",\n    \"0x13fd:0x....\",\n    \"\",\n    \"\",\n    \"-d sat\"\n  },\n  // Phison\n  { \"USB: ; \",\n    \"0x13fe:0x6500\", // TeamGroup C212 USB flash drive\n    \"\", // 0x0110\n    \"\",\n    \"-d sntasmedia\" // limited info only\n  },\n  // Super Top\n  { \"USB: Super Top generic enclosure; \",\n    \"0x14cd:0x6116\",\n    \"\", // 0x0150, older report suggests -d usbcypress\n    \"\", // 0x0160 also reported as unsupported\n    \"-d sat\"\n  },\n  // JMicron\n  { \"USB: ; JMicron JMS539\", // USB2/3->SATA (old firmware)\n    \"0x152d:0x0539\",\n    \"0x0100\",      // 1.00, various devices support -d usbjmicron\n    \"\",            // 1.00, SSI SI-1359RUS3 supports -d sat,\n    \"\"             //       -d usbjmicron may disconnect drive (ticket #552)\n  },\n  { \"USB: ; JMicron JMS539\", // USB2/3->SATA (new firmware)\n    \"0x152d:0x0539\",\n    \"0x020[56]|\"   //  2.05, ZTC USB 3.0 enclosure (ticket #338)\n    \"0x28(01|03|12)\", // 28.01, DATOptic U3eSATA (USB3.0 bridge with port multiplier)\n    \"\",               // 28.03, Mediasonic ProBox HF2-SU3S2 Rev 2 (port multiplier, ticket #504)\n    \"-d sat\"          // 28.12, Mediasonic ProBox H82-SU3S2 (port multiplier)\n  },\n  { \"USB: ; JMicron \", // USB->SATA->4xSATA (port multiplier)\n    \"0x152d:0x0551\",   // JMS539? (old firmware may use 0x152d:0x0539, ticket #552)\n    \"\", // 0x0100\n    \"\",\n    \"-d usbjmicron,x\"\n  },\n  { \"USB: ; JMicron\",\n    \"0x152d:0x0561\",\n    \"\", // 0x0003, ODROID CloudShell 2\n    \"\",\n    \"-d sat\"\n  },\n  { \"USB: ; JMicron JMS562\", // USB2/3+eSATA->2xSATA, USB2/3->3xSATA (RAID0/1)\n    \"0x152d:0x0562\",\n    \"\", // 0x0106, Fantec QB-X2US3R (ticket #966)\n    \"\", // only ATA IDENTIFY works, SMART commands don't work\n    \"-d sat\"\n  },\n  { \"USB: ; JMicron\", // USB2/3->2xSATA\n    \"0x152d:0x0565\",\n    \"\", // 0x9114, Akasa DuoDock X (ticket #607)\n    \"\",\n    \"-d sat\"\n  },\n  { \"USB: ; JMicron JMS567\", // USB2/3->SATA\n    \"0x152d:0x0567\",\n    \"\", // 0x0114\n    \"\", // 0x0205, 2.05, Mediasonic ProBox HF2-SU3S2 Rev 3 (port multiplier, ticket #504)\n    \"-d sat\"\n  },\n  { \"USB: ; JMicron\",\n    \"0x152d:0x05(7[789]|80)\", // 0x0579 (0x0100): Intenso External\n    \"\", // (0x0100), (0x0201), 0x0577 (0x0210), 0x0578 (0x0204)\n    \"\",\n    \"-d sat\"\n  },\n  { \"USB: ; JMicron JMS581\", // USB->SATA+PCIe (NVMe)\n    \"0x152d:0x0581\",\n    \"\", // 0x4204\n    \"\",\n    \"-d sntjmicron/sat\"\n  },\n  { \"USB: ; JMicron JMS583\", // USB->PCIe (NVMe)\n    \"0x152d:0x[0a]583\",\n    \"\", // 0x214\n    \"\",\n    \"-d sntjmicron\"\n  },\n  { \"USB: OCZ THROTTLE OCZESATATHR8G; JMicron JMF601\",\n    \"0x152d:0x0602\",\n    \"\",\n    \"\",\n    \"\" // unsupported\n  },\n  { \"USB: ; JMicron JMS578\", // USB->SATA\n    \"0x152d:0x0901\",\n    \"\", // 0x0215: TOPMORE\n    \"\",\n    \"-d sat\"\n  },\n  { \"USB: ; JMicron\",\n    \"0x152d:0x1337\",\n    \"\", // 0x0508, Digitus DA-71106\n    \"\",\n    \"-d sat\"\n  },\n  { \"USB: ; JMicron JMS561\", // USB2/3->2xSATA\n    \"0x152d:0x[19]561\", // 0x1561(0x0106), Sabrent USB 3.0 Dual Bay SATA Dock\n    \"\",  // 0x9561(0x0105), Orico 6629US3-C USB 3.0 Dual Bay SATA Dock\n    \"\",\n    \"-d sat\"\n  },\n  { \"USB: ; JMicron JMS576\", // USB3.1->SATA\n    \"0x152d:0x[01a]576\", // 0x1576 (0x0204): ICY BOX IB-223U3a-B\n    \"\", // 0xa576 (0x5102): JMicron SY-ENC50104 USB Device\n    \"\",\n    \"-d sat\"\n  },\n  { \"USB: ; JMicron JM20329\", // USB->SATA\n    \"0x152d:0x2329\",\n    \"\", // 0x0100\n    \"\",\n    \"-d usbjmicron\"\n  },\n  { \"USB: ; JMicron JM20336\", // USB+SATA->SATA, USB->2xSATA\n    \"0x152d:0x2336\",\n    \"\", // 0x0100\n    \"\","
